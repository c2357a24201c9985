-- ===== src/KeyLock/Invariant.antt =====
-- Who refers to an entry and who owns it, and the moves that leave the map of entries alone.
use xkit.Prelude.{
  ℕ, ◌+◌, ◌<◌, ◌≡◌, refl, Bool, true, false, ◌&&◌, ◌==◌, some, List, [], ◌∷◌, ◌++◌, String, pos,
  ◌≤ℤ◌, ltb_ℤ, length, get_elem?, set, total, total-append, total-set, get_elem?-set,
  get_elem?-append, get_elem?-lt, get_or-set, length-set, if◌then◌else◌, arith, Bool-cases, inl,
  inr,
}
use xkit.GoMap
use xkit.GoMap.{GoMap, Unique}
use xkit.KeyLock.{
  KeyLock, no_entry, entry_at, set_full, Phase, sent, backing_out, holding, unlocking, Call,
  starting, active, rechecking, ended, System,
}

-- 1 for a call that refers to the entry at `e`.
abbrev pub refs_of : ℕ → Call → ℕ
refs_of e (active blocking key e' phase) = if e' == e then 1 else 0
refs_of e _ = 0

-- A call owns its entry from its send to its receive.
abbrev pub owns : Phase → Bool
owns sent = true
owns backing_out = true
owns holding = true
owns unlocking = true
owns _ = false

abbrev pub owns_of : ℕ → Call → ℕ
owns_of e (active blocking key e' phase) = if e' == e && owns phase then 1 else 0
owns_of e _ = 0

abbrev pub one_if : Bool → ℕ
one_if b = if b then 1 else 0

-- What holds of the map of entries and of the calls that refer to them, whatever the channels are.
pub record IsCounted (l : KeyLock) (calls : List Call) : Type 0 where
  pub refs : (e : ℕ) → (entry_at l e).refcnt ≡ pos (total (refs_of e) calls)
  pub located :
      (i e : ℕ) (b : Bool) (k : String) (ph : Phase)
      → get_elem? calls i ≡ some (active b k e ph)
      → GoMap.get l.entries k ≡ some e
  pub present : (k : String) (e : ℕ) → GoMap.get l.entries k ≡ some e → e < length l.heap
  pub used : (k : String) (e : ℕ) → GoMap.get l.entries k ≡ some e → 0 < total (refs_of e) calls
  pub injective :
      (j k : String) (e : ℕ)
      → GoMap.get l.entries j ≡ some e
      → GoMap.get l.entries k ≡ some e
      → j ≡ k
  pub keys : Unique l.entries.entries
  pub counted : l.key_count ≡ pos (GoMap.size l.entries)
  pub limited : ltb_ℤ (pos 0) l.max_keys ≡ true → pos (GoMap.size l.entries) ≤ℤ l.max_keys

-- Each channel is full exactly if one call owns it.
abbrev pub IsOwned : KeyLock → List Call → Type 0
IsOwned l calls = (e : ℕ) → total (owns_of e) calls ≡ one_if (entry_at l e).ch_full

pub record Inv (s : System) : Type 0 where
  pub counts : IsCounted s.lock s.calls
  pub owners : IsOwned s.lock s.calls

-- A call that refers to no entry.
abbrev pub IsOutside : Call → Type 0
IsOutside (active b k e ph) = ⊥
IsOutside _ = Unit

pub outside_refs : (c : Call) (e : ℕ) → IsOutside c → refs_of e c ≡ 0
outside_refs (starting b k) e h = refl
outside_refs (active b k e' ph) e h = absurd h
outside_refs rechecking e h = refl
outside_refs (ended r) e h = refl

pub outside_owns : (c : Call) (e : ℕ) → IsOutside c → owns_of e c ≡ 0
outside_owns (starting b k) e h = refl
outside_owns (active b k e' ph) e h = absurd h
outside_owns rechecking e h = refl
outside_owns (ended r) e h = refl

pub outside_ne :
    (c : Call) (b : Bool) (k : String) (e : ℕ) (ph : Phase)
    → IsOutside c
    → some c ≡ some (active b k e ph)
    → ⊥
outside_ne (starting b' k') b k e ph h q = cc
outside_ne (active b' k' e' ph') b k e ph h q = h
outside_ne rechecking b k e ph h q = cc
outside_ne (ended r) b k e ph h q = cc

-- A new call that refers to no entry.
module _ (l : KeyLock) (calls : List Call) (c : Call) (out : IsOutside c) where
  append-IsCounted : IsCounted l calls → IsCounted l (calls ++ c ∷ [])
  append-IsCounted h = record {
    refs = λ e. ground (arith, h.refs e, total-append (refs_of e) calls c, outside_refs c e out);
    located = λ i e b k ph q.
        ground (arith, get_elem?-append calls c i, h.located i e b k ph, outside_ne c b k e ph out);
    present = h.present;
    used = λ k e q.
        omega (arith, h.used k e q, total-append (refs_of e) calls c, outside_refs c e out);
    injective = h.injective;
    keys = h.keys;
    counted = h.counted;
    limited = h.limited;
  }

  append-IsOwned : IsOwned l calls → IsOwned l (calls ++ c ∷ [])
  append-IsOwned h e = omega (arith, h e, total-append (owns_of e) calls c, outside_owns c e out)

  pub append-Inv :
      Inv (record { lock = l; calls = calls }) → Inv (record { lock = l; calls = calls ++ c ∷ [] })
  append-Inv h = record { counts = append-IsCounted h.counts; owners = append-IsOwned h.owners }

-- Only channels differ.
pub record IsSame (l l' : KeyLock) : Type 0 where
  pub same_refs : (e : ℕ) → (entry_at l' e).refcnt ≡ (entry_at l e).refcnt
  pub same_length : length l'.heap ≡ length l.heap
  pub same_entries : l'.entries ≡ l.entries
  pub same_count : l'.key_count ≡ l.key_count
  pub same_max : l'.max_keys ≡ l.max_keys

pub set_full-IsSame :
    (l : KeyLock) (e : ℕ) (v : Bool) → e < length l.heap → IsSame l (set_full l e v)
set_full-IsSame l e v lt = record {
  same_refs = λ e'.
      ground (arith, get_or-set l.heap e e' (record (entry_at l e) { ch_full = v }) no_entry lt);
  same_length = length-set l.heap e (record (entry_at l e) { ch_full = v });
  same_entries = refl;
  same_count = refl;
  same_max = refl;
}

pub full-set_full :
    (l : KeyLock) (e e' : ℕ) (v : Bool)
    → e < length l.heap
    → (entry_at (set_full l e v) e').ch_full ≡ (if e == e' then v else (entry_at l e').ch_full)
full-set_full l e e' v lt =
    ground (arith, get_or-set l.heap e e' (record (entry_at l e) { ch_full = v }) no_entry lt)

-- A call moves on with the entry that it has.
module _ (l l' : KeyLock) (calls : List Call) (i e : ℕ) (b : Bool) (k : String) (ph ph' : Phase)
    (here : get_elem? calls i ≡ some (active b k e ph)) where
  pub move-IsCounted :
      IsSame l l' → IsCounted l calls → IsCounted l' (set calls i (active b k e ph'))
  move-IsCounted same h = record {
    refs = λ e'. ground (
      arith,
      h.refs e',
      same.same_refs e',
      total-set (refs_of e') calls i (active b k e ph) (active b k e ph') here,
    );
    located = λ j e' b' k' p q. ground (
      arith,
      same.same_entries,
      get_elem?-set calls i j (active b k e ph') (get_elem?-lt calls i _ here),
      h.located i e b k ph here,
      h.located j e' b' k' p,
    );
    present = λ k' e' q. ground (arith, same.same_entries, same.same_length, h.present k' e');
    used = λ k' e' q. ground (
      arith,
      same.same_entries,
      h.used k' e',
      total-set (refs_of e') calls i (active b k e ph) (active b k e ph') here,
    );
    injective = λ j k' e' q r.
        h.injective j k' e' (rw (← same.same_entries) q) (rw (← same.same_entries) r);
    keys = rw same.same_entries h.keys;
    counted = rw (same.same_entries, same.same_count) h.counted;
    limited = rw (same.same_entries, same.same_max) h.limited;
  }

  -- The channel at `e` becomes full or empty as the call takes or leaves it.
  pub move-IsOwned :
      (full : Bool)
      → ((e' : ℕ) → (entry_at l' e').ch_full ≡ (if e == e' then full else (entry_at l e').ch_full))
      → one_if (owns ph') + one_if (entry_at l e).ch_full ≡ one_if (owns ph) + one_if full
      → IsOwned l calls
      → IsOwned l' (set calls i (active b k e ph'))
  move-IsOwned full channels balance h e' = elim (Bool-cases (e == e')) [
    | inl same ↦ ground (
      arith,
      h e',
      channels e',
      total-set (owns_of e') calls i (active b k e ph) (active b k e ph') here,
    )
    | inr other ↦ ground (
      arith,
      h e',
      channels e',
      total-set (owns_of e') calls i (active b k e ph) (active b k e ph') here,
    )
  ]
