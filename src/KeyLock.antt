-- ===== src/KeyLock.antt =====
-- pkg/util/xkeylock: the locker of keylock_impl.go under any interleaving of its callers. Each
-- access to shared memory is a step of its own: a critical section of a shard, an atomic load or
-- swap, a send or receive on a channel of size 1. The shards' maps have no key in common, so that
-- one map stands for them.
pub mod Invariant
pub mod Moves
pub mod Entries
pub mod Release
pub mod Steps
pub mod Safety
pub mod Limit
pub mod Progress
mod Examples
use xkit.Prelude.{
  ℕ, ◌+◌, ◌-◌, ◌<◌, ◌≡◌, Bool, true, false, not, ◌&&◌, ◌||◌, ◌==◌, Option, none, some, List, [],
  ◌∷◌, ◌++◌, String, str_eq, ℤ, pos, ◌+ℤ◌, ◌-ℤ◌, leb_ℤ, ltb_ℤ, length, get_or, get_elem?, set,
  if◌then◌else◌, bit_and, Result, ok, err,
}
use xkit.GoMap
use xkit.GoMap.{GoMap}

pub data Error : Type 0 where
  nil_context lock_not_held lock_occupied closed_error max_keys_exceeded : Error
  invalid_shard_count invalid_key context_error : Error

-- A size-1 channel that is full is a mutex that is held.
pub record LockEntry : Type 0 where
  pub ch_full : Bool
  pub refcnt : ℤ

-- `entries` maps a key to the place of its entry on the heap. `done` is the channel that `Close`
-- closes after it set `closed`.
pub record KeyLock : Type 0 where
  pub heap : List LockEntry
  pub entries : GoMap ℕ
  pub key_count : ℤ
  pub max_keys : ℤ
  pub closed : Bool
  pub done : Bool

-- newKeyLockImpl
abbrev pub new_key_lock : ℤ → KeyLock
new_key_lock max_keys = record {
  heap = [];
  entries = GoMap.make;
  key_count = pos 0;
  max_keys = max_keys;
  closed = false;
  done = false;
}

abbrev pub no_entry : LockEntry
no_entry = record { ch_full = false; refcnt = pos 0 }

abbrev pub entry_at : KeyLock → ℕ → LockEntry
entry_at l e = get_or l.heap e no_entry

abbrev pub set_entry : KeyLock → ℕ → LockEntry → KeyLock
set_entry l e v = record l { heap = set l.heap e v }

abbrev pub set_full : KeyLock → ℕ → Bool → KeyLock
set_full l e full = set_entry l e (record (entry_at l e) { ch_full = full })

-- What a call that lets go of its entry answers afterwards.
pub data Leaving : Type 0 where
  unlocked : Leaving
  with_error : Error → Leaving
  occupied : Leaving

-- Where a call, and then its handle, stands in the code, once it has an entry.
pub data Phase : Type 0 where
  waiting : Phase
  sent : Phase
  backing_out : Phase
  holding : Phase
  unlocking : Phase
  leaving : Leaving → Phase

-- A call of `Acquire` (blocking) or `TryAcquire`: before it has an entry; with the entry at a place
-- of the heap; before the last test of `TryAcquire`; and at its end.
pub data Call : Type 0 where
  starting : Bool → String → Call
  active : Bool → String → ℕ → Phase → Call
  rechecking : Call
  ended : Result Error Unit → Call

-- `getOrCreate`, in its critical section. The count of keys is atomic and not under the mutex; here it
-- grows in the step that adds the entry, at the place of the CAS that succeeds, and no call sees the
-- map of the shard between the two.
unfoldable pub get_or_create : String → KeyLock → Result Error ℕ × KeyLock
get_or_create key l =
    let e = length l.heap in
    if l.closed then (err closed_error, l) else elim (GoMap.get l.entries key) [
      | some e ↦
          let entry = entry_at l e in
          (ok e, set_entry l e (record entry { refcnt = entry.refcnt +ℤ pos 1 }))
      | none ↦
          if ltb_ℤ (pos 0) l.max_keys && leb_ℤ l.max_keys l.key_count
          then (err max_keys_exceeded, l)
          else (
            ok e,
            record l {
              heap = l.heap ++ record { ch_full = false; refcnt = pos 1 } ∷ [];
              entries = GoMap.put l.entries key e;
              key_count = l.key_count +ℤ pos 1;
            },
          )
    ]

-- `releaseRef`, in its critical section; the count falls in the step that deletes the entry.
unfoldable pub release_ref : String → ℕ → KeyLock → KeyLock
release_ref key e l =
    let entry = entry_at l e in
    let count = entry.refcnt -ℤ pos 1 in
    let l' = set_entry l e (record entry { refcnt = count }) in
    if leb_ℤ count (pos 0) && leb_ℤ (pos 0) count
    then record l' { entries = GoMap.delete l.entries key; key_count = l.key_count -ℤ pos 1 }
    else l'

-- What the environment chooses where a call waits: its send goes through, its context ends, it sees
-- that the locker was closed, or `TryAcquire` takes its default case.
pub data Choice : Type 0 where
  send see_context see_done take_default : Choice

-- The `select` of `Acquire` and `TryAcquire`. `none` is a case that is not ready.
unfoldable pub select : Choice → Bool → ℕ → KeyLock → Option (Phase × KeyLock)
select send blocking e l = if (entry_at l e).ch_full then none else some (sent, set_full l e true)
select see_context blocking e l =
    if blocking then some (leaving (with_error context_error), l) else none
select see_done blocking e l =
    if blocking && l.done then some (leaving (with_error closed_error), l) else none
select take_default blocking e l =
    if not blocking && (entry_at l e).ch_full then some (leaving occupied, l) else none

-- `<-entry.ch`, which waits for a full channel.
unfoldable pub receive : ℕ → Phase → KeyLock → Option (Phase × KeyLock)
receive e after l = if (entry_at l e).ch_full then some (after, set_full l e false) else none

-- The next step of a call that has an entry and does not leave it. A handle is unlocked when its
-- owner decides to.
unfoldable pub advance : Choice → Bool → ℕ → Phase → KeyLock → Option (Phase × KeyLock)
advance c blocking e waiting l = select c blocking e l
advance c blocking e sent l = some (if l.closed then backing_out else holding, l)
advance c blocking e backing_out l = receive e (leaving (with_error closed_error)) l
advance c blocking e holding l = some (unlocking, l)
advance c blocking e unlocking l = receive e (leaving unlocked) l
advance c blocking e (leaving r) l = none

-- What follows `releaseRef`.
abbrev pub after_release : Leaving → Call
after_release unlocked = ended (ok tt)
after_release (with_error x) = ended (err x)
after_release occupied = rechecking

pub record System : Type 0 where
  pub lock : KeyLock
  pub calls : List Call

-- How a call goes on from `getOrCreate`, and from a step with its entry.
abbrev pub after_create : Bool → String → Result Error ℕ × KeyLock → Option (Call × KeyLock)
after_create blocking key (err x, l) = some (ended (err x), l)
after_create blocking key (ok e, l) = some (active blocking key e waiting, l)

abbrev pub after_advance : Bool → String → ℕ → Option (Phase × KeyLock) → Option (Call × KeyLock)
after_advance blocking key e none = none
after_advance blocking key e (some (phase, l)) = some (active blocking key e phase, l)

-- What a call does next where it keeps its entry, and where it lets it go.
abbrev pub with_entry : Choice → Bool → String → ℕ → Phase → KeyLock → Option (Call × KeyLock)
with_entry c blocking key e (leaving r) l = some (after_release r, release_ref key e l)
with_entry c blocking key e phase l = after_advance blocking key e (advance c blocking e phase l)

-- The next step of any call.
unfoldable pub next_call : Choice → Call → KeyLock → Option (Call × KeyLock)
next_call c (starting blocking key) l = after_create blocking key (get_or_create key l)
next_call c (active blocking key e phase) l = with_entry c blocking key e phase l
next_call c rechecking l = some (ended (err (if l.closed then closed_error else lock_occupied)), l)
next_call c (ended r) l = none

-- The system after a step of call `i`.
abbrev pub put_call : System → ℕ → Option (Call × KeyLock) → Option System
put_call s i none = none
put_call s i (some (call, l)) = some (record { lock = l; calls = set s.calls i call })

-- A context: nil, or whether it has ended.
abbrev pub Ctx : Type 0
Ctx = Option Bool

-- `Acquire` and `TryAcquire` up to `getOrCreate`.
unfoldable pub acquire_call : Ctx → String → KeyLock → Call
acquire_call none key l = ended (err nil_context)
acquire_call (some is_over) key l =
    if str_eq key ""
    then ended (err invalid_key)
    else if l.closed
    then ended (err closed_error)
    else if is_over
    then ended (err context_error)
    else starting true key

unfoldable pub try_acquire_call : String → KeyLock → Call
try_acquire_call key l =
    if str_eq key ""
    then ended (err invalid_key)
    else if l.closed
    then ended (err closed_error)
    else starting false key

-- `Close`: the swap of `closed`, and then the close of the channel.
unfoldable pub close : KeyLock → Result Error Unit × KeyLock
close l = if l.closed then (err closed_error, l) else (ok tt, record l { closed = true })

pub data Event : Type 0 where
  acquires : Ctx → String → Event
  tries : String → Event
  steps : ℕ → Choice → Event
  closes signals : Event

abbrev pub add_call : System → Call → System
add_call s c = record s { calls = s.calls ++ c ∷ [] }

-- One step of the system; `none` where it is not possible.
unfoldable pub step : Event → System → Option System
step (acquires ctx key) s = some (add_call s (acquire_call ctx key s.lock))
step (tries key) s = some (add_call s (try_acquire_call key s.lock))
step (steps i c) s = elim (get_elem? s.calls i) [
  | none ↦ none
  | some call ↦ put_call s i (next_call c call s.lock)
]
step closes s = some (record s { lock = (close s.lock).1 })
step signals s =
    if s.lock.closed then some (record s { lock = record s.lock { done = true } }) else none

-- The states that a new locker can come to.
pub data Reach (max_keys : ℤ) : System → Type 0 where
  start : Reach max_keys (record { lock = new_key_lock max_keys; calls = [] })
  later : {s t : System} → Reach max_keys s → (e : Event) → step e s ≡ some t → Reach max_keys t
