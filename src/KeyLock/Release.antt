-- ===== src/KeyLock/Release.antt =====
-- The critical section of `releaseRef`, and the step of a call with its entry or without one.
use xkit.Prelude.{
  ℕ, ◌+◌, ◌<◌, ◌≡◌, ◌≢◌, Bool, ◌&&◌, some, List, String, str_eq_iff, ℤ, pos, ◌-ℤ◌, leb_ℤ, get_elem?,
  set, total, total-set, total-get-get, get_elem?-set, get_elem?-lt, length-set, arith, Bool-cases,
  inl, inr,
}
use xkit.GoMap
use xkit.GoMap.{Unique, get-delete, delete-Unique, size-delete_present}
use xkit.KeyLock.{KeyLock, entry_at, Phase, leaving, Leaving, Call, active, release_ref}
use xkit.KeyLock.Invariant.{
  refs_of, owns_of, IsOwned, Inv, IsOutside, outside_refs, outside_owns, outside_ne,
}
use xkit.KeyLock.Entries.{set_refs, refs-set_refs, full-set_refs}

module _ (l : KeyLock) (calls : List Call) (i e : ℕ) (b : Bool) (k : String) (r : Leaving)
    (c : Call) (here : get_elem? calls i ≡ some (active b k e (leaving r))) (out : IsOutside c)
    (h : Inv (record { lock = l; calls = calls })) where
  open h use {counts, owners}

  abbrev count : ℤ
  count = (entry_at l e).refcnt -ℤ pos 1

  drops :
      (w : Call → ℕ)
      → w c ≡ 0
      → total w (set calls i c) + w (active b k e (leaving r)) ≡ total w calls
  drops w z = omega (arith, total-set w calls i (active b k e (leaving r)) c here)

  found : GoMap.get l.entries k ≡ some e
  found = counts.located i e b k (leaving r) here

  refs-drop :
      (e' : ℕ)
      → (entry_at (set_refs l e count) e').refcnt ≡ pos (total (refs_of e') (set calls i c))
  refs-drop e' = ground (
    arith,
    counts.refs e',
    counts.refs e,
    refs-set_refs l e e' count (counts.present k e found),
    drops (refs_of e') (outside_refs c e' out),
  )

  located-drop :
      (j e' : ℕ) (b' : Bool) (k' : String) (p : Phase)
      → get_elem? (set calls i c) j ≡ some (active b' k' e' p)
      → (i ≢ j) × (get_elem? calls j ≡ some (active b' k' e' p))
  located-drop j e' b' k' p q =
      ground (
        arith,
        get_elem?-set calls i j c (get_elem?-lt calls i _ here),
        outside_ne c b' k' e' p out,
      )

  IsOwned-drop :
      (l' : KeyLock)
      → ((e' : ℕ) → (entry_at l' e').ch_full ≡ (entry_at l e').ch_full)
      → IsOwned l' (set calls i c)
  IsOwned-drop l' same e' =
      ground (arith, same e', owners e', drops (owns_of e') (outside_owns c e' out))

  -- Other calls still refer to the entry.
  kept-Inv :
      1 < total (refs_of e) calls
      → Inv (record { lock = set_refs l e count; calls = set calls i c })
  kept-Inv many =
      let lt = counts.present k e found in
      record {
        counts = record {
          refs = refs-drop;
          located = λ j e' b' k' p q. counts.located j e' b' k' p (located-drop j e' b' k' p q).1;
          present = λ k' e' q. ground (
            arith,
            counts.present k' e' q,
            length-set l.heap e (record (entry_at l e) { refcnt = count }),
          );
          used = λ k' e' q.
              ground (arith, counts.used k' e' q, drops (refs_of e') (outside_refs c e' out));
          injective = counts.injective;
          keys = counts.keys;
          counted = counts.counted;
          limited = counts.limited;
        };
        owners = IsOwned-drop (set_refs l e count) (λ e'. full-set_refs l e e' count lt);
      }

  abbrev cleared : KeyLock
  cleared = record (set_refs l e count) {
    entries = GoMap.delete l.entries k;
    key_count = l.key_count -ℤ pos 1;
  }

  -- No other call has the key.
  last-only :
      total (refs_of e) calls ≡ 1
      → (j e' : ℕ) (b' : Bool) (k' : String) (p : Phase) → i ≢ j
      → get_elem? calls j ≡ some (active b' k' e' p)
      → k ≢ k'
  last-only one j e' b' k' p ne there same =
      let there' : GoMap.get l.entries k ≡ some e' = rw same (counts.located j e' b' k' p there) in
      let e-eq : e' ≡ e = ground (arith, found, there') in
      ground (
        arith,
        e-eq,
        total-get-get (refs_of e) calls i j (active b k e (leaving r)) (active b' k' e' p) here
            there ne,
      )

  cleared-Inv : total (refs_of e) calls ≡ 1 → Inv (record { lock = cleared; calls = set calls i c })
  cleared-Inv one =
      let lt = counts.present k e found in
      record {
        counts = record {
          refs = refs-drop;
          located = λ j e' b' k' p q.
              let (ne, there) = located-drop j e' b' k' p q in
              ground (
                arith,
                get-delete l.entries k k',
                str_eq_iff k k',
                counts.located j e' b' k' p there,
                last-only one j e' b' k' p ne there,
              );
          present = λ k' e' q. ground (
            arith,
            get-delete l.entries k k',
            counts.present k' e',
            length-set l.heap e (record (entry_at l e) { refcnt = count }),
          );
          used = λ k' e' q. ground (
            arith,
            get-delete l.entries k k',
            str_eq_iff k k',
            counts.used k' e',
            counts.injective k k' e',
            found,
            drops (refs_of e') (outside_refs c e' out),
          );
          injective = λ j k' e' q s. ground (
            arith,
            get-delete l.entries k j,
            get-delete l.entries k k',
            counts.injective j k' e',
          );
          keys = delete-Unique l.entries k counts.keys;
          counted =
              ground (arith, counts.counted, size-delete_present l.entries k e counts.keys found);
          limited = λ m.
              ground (arith, counts.limited m, size-delete_present l.entries k e counts.keys found);
        };
        owners = IsOwned-drop cleared (λ e'. full-set_refs l e e' count lt);
      }

  at_least_one : 0 < total (refs_of e) calls
  at_least_one = counts.used k e found

  pub release_ref-Inv : Inv (record { lock = release_ref k e l; calls = set calls i c })
  unfolding release_ref
  release_ref-Inv = elim (Bool-cases (leb_ℤ count (pos 0) && leb_ℤ (pos 0) count)) [
    | inl last ↦ rw last (cleared-Inv (ground (arith, counts.refs e, at_least_one)))
    | inr more ↦ rw more (kept-Inv (ground (arith, counts.refs e, at_least_one)))
  ]
