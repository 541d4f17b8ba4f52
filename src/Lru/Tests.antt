-- ===== src/Lru/Tests.antt =====
-- The address cache at concrete inputs.
use mathlib.Core.List.{lookup}
use native.Mathlib.Decide.{ℕ_discrete as dec}
use uvloop.Prelude.{ℕ, ◌≡◌, refl, List, [], ◌∷◌, negsuc, arith}
use uvloop.Errors.{value_error}
use uvloop.Python.{Outcome, ok, raise}
use uvloop.Lru.{LruCache, init, get, getitem, setitem, delitem, len, iter, contains}
use uvloop.Lru.Entries.{remove, od_set, touch}
use uvloop.Lru.Eviction.{IsValid, newest, with_dict, setitem_lem, setitem-IsValid, getitem-setitem}
use uvloop.Lru.History.{Call, run, log, run-Window}

program : Unit {0}
unfolding init get getitem setitem delitem len iter contains remove od_set lookup dec run log
program = tt

abbrev two_items : LruCache ℕ ℕ
two_items = record { dict = (1, 10) ∷ (2, 20) ∷ []; maxsize = 2 }

abbrev calls : List (Call ℕ ℕ)
calls = Call.reads 1 0 ∷ Call.stores 3 30 ∷ Call.stores 1 11 ∷ []

-- The read of 1 saves it, so the store of 3 evicts 2.
run-calls : (run dec two_items calls).dict ≡ (3, 30) ∷ (1, 11) ∷ []
unfolding program
run-calls = refl

init_negative : ◌≡◌ {A = Outcome (LruCache ℕ ℕ)} (init (negsuc 4)) (raise value_error)
unfolding program
init_negative = refl

two_items-IsValid : IsValid dec two_items
unfolding lookup dec
two_items-IsValid = record {
  bounded = omega arith;
  positive = omega arith;
  unique = (refl, (refl, tt));
}

setitem-IsValid_example : IsValid dec (setitem dec 3 30 two_items).1
setitem-IsValid_example = setitem-IsValid dec two_items 3 30 two_items-IsValid

getitem-setitem_example : (getitem dec 3 (setitem dec 3 30 two_items).1).0 ≡ ok 30
getitem-setitem_example = getitem-setitem dec two_items 3 30 two_items-IsValid

run-Window_example :
    (run dec two_items calls).dict ≡ newest 2 (log dec 2 ((1, 10) ∷ (2, 20) ∷ []) calls)
unfolding lookup dec
run-Window_example = run-Window dec 2 two_items two_items.dict calls (refl, (refl, tt)) refl refl

setitem_lem_example :
    setitem dec 3 30 two_items
    ≡ (ok tt, with_dict two_items (newest 2 (touch dec 3 30 ((1, 10) ∷ (2, 20) ∷ []))))
setitem_lem_example = setitem_lem dec two_items 3 30
