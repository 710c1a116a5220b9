-- ===== src/Tests/Metadata.antt =====
-- The conversion of a document's metadata at a dict that holds itself.
use cf_knowledge_kiln.Base.{none, some, [], ◌∷◌, ◌≡◌, refl, arith}
use cf_knowledge_kiln.Base.OrderedDict.{set_item}
use cf_knowledge_kiln.Base.Texts.{Text, codes}
use cf_knowledge_kiln.Ingestion.JsonSafe.{
  native, scalar, at, dict, set_of, Heap, Json, string, number, literal, untouched, nan_or_inf,
  finite, decimal, array, object, items, fields, Python, cycle, jsonify, jsonify_under,
  text_discrete, leaf,
}
use cf_knowledge_kiln.Ingestion.JsonSafe.Native.{IsNative}
use cf_knowledge_kiln.Ingestion.JsonSafe.Returns.{jsonify-IsNative}

abbrev shown : Json → Text
shown (string t) = t
shown (number t) = t
shown (literal t) = t
shown (untouched t) = t
shown nan_or_inf = codes "nan"
shown (array js) = codes "[]"
shown (object fs) = codes "{}"

abbrev python : Python Text
python = record {
  str = λ k. k;
  repr = shown;
  datetime_isoformat = λ t. codes "2026-01-01T00:00:00";
  date_isoformat = λ d. codes "2026-01-01";
  float = λ t. some (finite t);
  decode = λ bs. none;
  hex = λ bs. codes "ff";
}

-- {"self": <itself>, "tags": {"b", "a"}, "day": 3.5}, the set in the second container
abbrev knotted : Heap Text
knotted =
    dict (
      (codes "self", at 0)
      ∷ (codes "tags", at 1)
      ∷ (codes "day", scalar (decimal (codes "3.5")))
      ∷ [])
    ∷ set_of (scalar (native (codes "b")) ∷ scalar (native (codes "a")) ∷ [])
    ∷ []

knotted_json :
    jsonify python knotted (at 0)
    ≡ some (
        object (
          fields (
            (codes "self", cycle)
            ∷ (codes "tags", array (items (literal (codes "a") ∷ literal (codes "b") ∷ [])))
            ∷ (codes "day", number (codes "3.5"))
            ∷ [])))
unfolding jsonify jsonify_under set_item text_discrete leaf
knotted_json = refl

jsonify-IsNative_example : (j : Json) × (jsonify python knotted (at 0) ≡ some j) × IsNative j
jsonify-IsNative_example =
    jsonify-IsNative python knotted (at 0)
      ((omega arith, (omega arith, (tt, tt))), ((tt, (tt, tt)), tt)) (omega arith)
