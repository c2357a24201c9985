-- ===== src/Limit/Buckets.antt =====
-- backend_local.go: the table of buckets under any interleaving of getOrCreateBucket and Reset. A bucket
-- is a number, that of its allocation; the tokens in it are float64 and are left out.
use xkit.Prelude.{
  ℕ, ◌+◌, ◌-◌, ◌≡◌, ◌==◌, leb, Option, none, some, List, [], ◌∷◌, ◌++◌, String, get_elem?, set,
  if◌then◌else◌,
}
use xkit.GoMap
use xkit.GoMap.{GoMap}

abbrev pub max_buckets : ℕ
max_buckets = 65536

-- `made` counts the buckets that were allocated. `bucket_count` is an int64, which stays a natural
-- number here: see the invariant of Limit/Cap.
pub record LocalBackend : Type 0 where
  pub buckets : GoMap ℕ
  pub bucket_count : ℕ
  pub made : ℕ

-- A call of getOrCreateBucket before its load from the map, its load of the count, its CAS with
-- what it loaded, its LoadOrStore, the return of its place in the count, and at its end; and a call
-- of Reset before its LoadAndDelete, before it counts down, and at its end.
pub data Call : Type 0 where
  looking reserving : String → Call
  swapping : String → ℕ → Call
  storing : String → Call
  giving_back : ℕ → Call
  got : Option ℕ → Call
  resetting : String → Call
  dropping was_reset : Call

abbrev pub after_look : String → Option ℕ → Call
after_look k none = reserving k
after_look k (some bucket) = got (some bucket)

abbrev pub reserve : String → ℕ → Call
reserve k cur = if leb max_buckets cur then got none else swapping k cur

unfoldable pub compare_and_swap : String → ℕ → LocalBackend → Call × LocalBackend
compare_and_swap k cur b =
    if b.bucket_count == cur
    then (storing k, record b { bucket_count = cur + 1 })
    else (reserving k, b)

abbrev pub load_or_store : String → LocalBackend → Option ℕ → Call × LocalBackend
load_or_store k b (some bucket) = (giving_back bucket, record b { made = b.made + 1 })
load_or_store k b none =
    (got (some b.made), record b { buckets = GoMap.put b.buckets k b.made; made = b.made + 1 })

abbrev pub load_and_delete : String → LocalBackend → Option ℕ → Call × LocalBackend
load_and_delete k b none = (was_reset, b)
load_and_delete k b (some bucket) = (dropping, record b { buckets = GoMap.delete b.buckets k })

abbrev pub count_down : LocalBackend → LocalBackend
count_down b = record b { bucket_count = b.bucket_count - 1 }

-- The next step of a call.
unfoldable pub move : Call → LocalBackend → Option (Call × LocalBackend)
unfolding compare_and_swap
move (looking k) b = some (after_look k (GoMap.get b.buckets k), b)
move (reserving k) b = some (reserve k b.bucket_count, b)
move (swapping k cur) b = some (compare_and_swap k cur b)
move (storing k) b = some (load_or_store k b (GoMap.get b.buckets k))
move (giving_back bucket) b = some (got (some bucket), count_down b)
move (got bucket) b = none
move (resetting k) b = some (load_and_delete k b (GoMap.get b.buckets k))
move dropping b = some (was_reset, count_down b)
move was_reset b = none

pub record System : Type 0 where
  pub backend : LocalBackend
  pub calls : List Call

pub data Event : Type 0 where
  begins_check begins_reset : String → Event
  moves : ℕ → Event

abbrev pub begin : Call → System → System
begin c s = record s { calls = s.calls ++ c ∷ [] }

abbrev pub moved : System → ℕ → Option (Call × LocalBackend) → Option System
moved s i none = none
moved s i (some (c, b)) = some (record { backend = b; calls = set s.calls i c })

abbrev pub move_call : System → ℕ → Option Call → Option System
move_call s i none = none
move_call s i (some c) = moved s i (move c s.backend)

unfoldable pub step : Event → System → Option System
unfolding move
step (begins_check k) s = some (begin (looking k) s)
step (begins_reset k) s = some (begin (resetting k) s)
step (moves i) s = move_call s i (get_elem? s.calls i)

-- newLocalBackend
abbrev pub new_local_backend : System
new_local_backend = record {
  backend = record { buckets = GoMap.make; bucket_count = 0; made = 0 };
  calls = [];
}

pub data Reach : System → Type 0 where
  start : Reach new_local_backend
  later : {s t : System} → Reach s → (e : Event) → step e s ≡ some t → Reach t

-- 1 for a call that has a place in the count but no bucket in the map.
abbrev pub owes : Call → ℕ
owes (storing k) = 1
owes (giving_back bucket) = 1
owes dropping = 1
owes _ = 0
