-- ===== src/KeyLock/Entries.antt =====
-- The critical sections of `getOrCreate` and `releaseRef`.
use xkit.Prelude.{
  ℕ, ◌+◌, ◌<◌, ◌≡◌, refl, Bool, true, false, ◌&&◌, ◌==◌, none, some, List, [], ◌∷◌, ◌++◌, String,
  str_eq_iff, ℤ, pos, ◌+ℤ◌, leb_ℤ, ltb_ℤ, length, get_elem?, set, total, total-set, get_elem?-set,
  get_elem?-lt, get_or-set, get_or-append, get_or-length, length-append, length-set, if◌then◌else◌,
  arith, Option-cases, inl, inr, Result, ok, err,
}
use xkit.GoMap
use xkit.GoMap.{
  GoMap, Unique, get-put, get-delete, put-Unique, delete-Unique, size-put_absent,
  size-delete_present,
}
use xkit.KeyLock.{
  Error, KeyLock, no_entry, entry_at, set_entry, waiting, Call, starting, active, get_or_create,
}
use xkit.KeyLock.Invariant.{refs_of, owns_of, Inv}

-- A new count of references at `e`.
abbrev pub set_refs : KeyLock → ℕ → ℤ → KeyLock
set_refs l e n = set_entry l e (record (entry_at l e) { refcnt = n })

pub refs-set_refs :
    (l : KeyLock) (e e' : ℕ) (n : ℤ)
    → e < length l.heap
    → (entry_at (set_refs l e n) e').refcnt ≡ (if e == e' then n else (entry_at l e').refcnt)
refs-set_refs l e e' n lt =
    ground (arith, get_or-set l.heap e e' (record (entry_at l e) { refcnt = n }) no_entry lt)

pub full-set_refs :
    (l : KeyLock) (e e' : ℕ) (n : ℤ)
    → e < length l.heap
    → (entry_at (set_refs l e n) e').ch_full ≡ (entry_at l e').ch_full
full-set_refs l e e' n lt =
    ground (arith, get_or-set l.heap e e' (record (entry_at l e) { refcnt = n }) no_entry lt)

-- Call `i` gets hold of an entry that is there.
module _ (l : KeyLock) (calls : List Call) (i : ℕ) (b : Bool) (k : String)
    (here : get_elem? calls i ≡ some (starting b k))
    (h : Inv (record { lock = l; calls = calls })) where
  open h use {counts, owners}

  weights :
      (w : Call → ℕ) (e : ℕ)
      → w (starting b k) ≡ 0
      → total w (set calls i (active b k e waiting)) ≡ total w calls + w (active b k e waiting)
  weights w e z = omega (arith, total-set w calls i (starting b k) (active b k e waiting) here)

  join-Inv :
      (e : ℕ)
      → GoMap.get l.entries k ≡ some e
      → Inv (record {
        lock = set_refs l e ((entry_at l e).refcnt +ℤ pos 1);
        calls = set calls i (active b k e waiting);
      })
  join-Inv e found =
      let lt = counts.present k e found in
      let n = (entry_at l e).refcnt +ℤ pos 1 in
      record {
        counts = record {
          refs = λ e'. ground (
            arith,
            counts.refs e,
            counts.refs e',
            refs-set_refs l e e' n lt,
            weights (refs_of e') e refl,
          );
          located = λ j e' b' k' p q. ground (
            arith,
            get_elem?-set calls i j (active b k e waiting) (get_elem?-lt calls i _ here),
            counts.located j e' b' k' p,
          );
          present = λ k' e' q. ground (
            arith,
            counts.present k' e' q,
            length-set l.heap e (record (entry_at l e) { refcnt = n }),
          );
          used = λ k' e' q. omega (arith, counts.used k' e' q, weights (refs_of e') e refl);
          injective = counts.injective;
          keys = counts.keys;
          counted = counts.counted;
          limited = counts.limited;
        };
        owners =
            λ e'. ground (arith, owners e', full-set_refs l e e' n lt, weights (owns_of e') e refl);
      }

  abbrev place : ℕ
  place = length l.heap

  abbrev fresh : KeyLock
  fresh = record l {
    heap = l.heap ++ record { ch_full = false; refcnt = pos 1 } ∷ [];
    entries = GoMap.put l.entries k place;
    key_count = l.key_count +ℤ pos 1;
  }

  -- Beyond the heap there are no references and no owners.
  fresh_unused : total (refs_of place) calls ≡ 0
  fresh_unused = ground (arith, counts.refs place, get_or-length l.heap no_entry)

  fresh_unowned : total (owns_of place) calls ≡ 0
  fresh_unowned = ground (arith, owners place, get_or-length l.heap no_entry)

  no_place : (k' : String) → GoMap.get l.entries k' ≡ some place → ⊥
  no_place k' q = omega (arith, counts.present k' place q)

  create-Inv :
      GoMap.get l.entries k ≡ none
      → (ltb_ℤ (pos 0) l.max_keys && leb_ℤ l.max_keys l.key_count) ≡ false
      → Inv (record { lock = fresh; calls = set calls i (active b k place waiting) })
  create-Inv absent room = record {
    counts = record {
      refs = λ e'. ground (
        arith,
        counts.refs e',
        fresh_unused,
        get_or-append l.heap (record { ch_full = false; refcnt = pos 1 }) no_entry e',
        weights (refs_of e') place refl,
      );
      located = λ j e' b' k' p q. ground (
        arith,
        get_elem?-set calls i j (active b k place waiting) (get_elem?-lt calls i _ here),
        counts.located j e' b' k' p,
        get-put l.entries k k' place,
        str_eq_iff k k',
      );
      present = λ k' e' q. ground (
        arith,
        get-put l.entries k k' place,
        counts.present k' e',
        length-append l.heap (record { ch_full = false; refcnt = pos 1 } ∷ []),
      );
      used = λ k' e' q.
          ground (
            arith,
            get-put l.entries k k' place,
            counts.used k' e',
            weights (refs_of e') place refl,
          );
      injective = λ j k' e' q r. ground (
        arith,
        get-put l.entries k j place,
        get-put l.entries k k' place,
        str_eq_iff k j,
        str_eq_iff k k',
        counts.injective j k' e',
        no_place j,
        no_place k',
      );
      keys = put-Unique l.entries k place counts.keys;
      counted = ground (arith, counts.counted, size-put_absent l.entries k place absent);
      limited = λ m.
          ground
            (arith, counts.counted, counts.limited m, size-put_absent l.entries k place absent);
    };
    owners = λ e'. ground (
      arith,
      owners e',
      fresh_unowned,
      get_or-append l.heap (record { ch_full = false; refcnt = pos 1 }) no_entry e',
      weights (owns_of e') place refl,
    );
  }

  -- What a call of `getOrCreate` leads to.
  abbrev pub Created : Result Error ℕ × KeyLock → Type 0
  Created (err x, l') = l' ≡ l
  Created (ok e, l') = Inv (record { lock = l'; calls = set calls i (active b k e waiting) })

  if-Created :
      (test : Bool) (x y : Result Error ℕ × KeyLock)
      → (test ≡ true → Created x)
      → (test ≡ false → Created y)
      → Created (if test then x else y)
  if-Created true x y p q = p refl
  if-Created false x y p q = q refl

  pub get_or_create-Created : Created (get_or_create k l)
  unfolding get_or_create
  get_or_create-Created =
      if-Created l.closed _ _ (λ _. refl)
        (λ _. elim (Option-cases (GoMap.get l.entries k)) [
          | inl absent ↦
              rw (absent, get_or_create)
                (if-Created (ltb_ℤ (pos 0) l.max_keys && leb_ℤ l.max_keys l.key_count) _ _
                  (λ _. refl) (create-Inv absent))
          | inr (e, found) ↦ rw (found, get_or_create) (join-Inv e found)
        ])
