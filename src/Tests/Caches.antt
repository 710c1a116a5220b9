-- ===== src/Tests/Caches.antt =====
-- The pseudo-document cache at concrete inputs.
use cf_knowledge_kiln.Base.{ℕ, ◌-◌, ◌≤◌, ◌≡◌, refl, some, List, [], ◌∷◌, arith, ℕ_discrete}
use cf_knowledge_kiln.Base.OrderedDict.{get as get_item}
use cf_knowledge_kiln.Base.OrderedDict.{delete, move_to_end, set_item, trim}
use cf_knowledge_kiln.Retrieval.Hyde.Cache.{HydeCache, init, get, put}
use cf_knowledge_kiln.Retrieval.Hyde.Cache.Laws.{IsValid}
use cf_knowledge_kiln.Retrieval.Hyde.Cache.History.{Call, lookup, store, run, note, run-get}
use Prim.Native.String.{String}

-- An entry may be ten ticks old, and there are two at most.
abbrev empty_cache : HydeCache ℕ String
empty_cache = record { ttl = 10; max_entries = 2; store = [] }

abbrev calls : List (Call ℕ String)
calls =
    store 100 1 "first"
    ∷ store 101 2 "second"
    ∷ lookup 102 1
    ∷ store 103 3 "third"
    ∷ store 104 1 "again"
    ∷ []

init_empty : init 10 2 ≡ some empty_cache
unfolding init
init_empty = refl

found_again : (get ℕ_discrete (run ℕ_discrete calls empty_cache) 110 1).1 ≡ some "again"
unfolding run get put get_item delete move_to_end set_item trim ℕ_discrete
found_again = refl

run-get_example :
    (s : ℕ) × (get_item ℕ_discrete 1 (note ℕ_discrete calls []) ≡ some (s, "again"))
    × (110 - s ≤ 10)
run-get_example = run-get ℕ_discrete calls 10 2 empty_cache 110 1 "again" init_empty found_again

empty_cache-IsValid : IsValid ℕ_discrete empty_cache
empty_cache-IsValid = record { room = omega arith; distinct = tt; bounded = omega arith }
