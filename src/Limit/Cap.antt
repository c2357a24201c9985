-- ===== src/Limit/Cap.antt =====
-- The number of buckets stays within its limit, whatever the calls and their interleaving.
use xkit.Prelude.{
  ℕ, ◌+◌, ◌≤◌, ◌≡◌, refl, ◌==◌, leb, Option, none, some, String, get_elem?, set, total,
  total-append, total-set, total-get, arith, if-elim, if◌then◌else◌, subst,
}
use xkit.GoMap
use xkit.GoMap.{GoMap, Unique, put-Unique, delete-Unique, size-put_absent, size-delete_present}
use xkit.Limit.Buckets.{
  max_buckets, LocalBackend, Call, looking, reserving, swapping, storing, giving_back, got,
  resetting, dropping, was_reset, after_look, reserve, compare_and_swap, load_or_store,
  load_and_delete, count_down, move, System, Event, begins_check, begins_reset, moves, begin, moved,
  move_call, step, Reach, start, later, owes,
}

-- 1 for a call whose CAS would pass the limit.
abbrev passes : Call → ℕ
passes (swapping k cur) = if leb max_buckets cur then 1 else 0
passes _ = 0

record Kept (b : LocalBackend) : Type 0 where
  unique : Unique b.buckets.entries
  limited : b.bucket_count ≤ max_buckets

-- What a move from `c` to `c'` does to the count and to the map.
record Balanced (c : Call) (b : LocalBackend) (c' : Call) (b' : LocalBackend) : Type 0 where
  kept : Kept b'
  stays : passes c' ≡ 0
  balance :
      b'.bucket_count + GoMap.size b.buckets + owes c
      ≡ b.bucket_count + GoMap.size b'.buckets + owes c'

abbrev BalancedMove : Call → LocalBackend → Option (Call × LocalBackend) → Type 0
BalancedMove c b none = Unit
BalancedMove c b (some (c', b')) = Balanced c b c' b'

module _ (b : LocalBackend) (h : Kept b) where
  load_or_store-Balanced :
      (k : String) (o : Option ℕ)
      → GoMap.get b.buckets k ≡ o
      → Balanced (storing k) b (load_or_store k b o).0 (load_or_store k b o).1
  load_or_store-Balanced k none e = record {
    kept = record { unique = put-Unique b.buckets k b.made h.unique; limited = h.limited };
    stays = refl;
    balance = omega (arith, size-put_absent b.buckets k b.made e);
  }
  load_or_store-Balanced k (some bucket) e = record {
    kept = record { unique = h.unique; limited = h.limited };
    stays = refl;
    balance = refl;
  }

  load_and_delete-Balanced :
      (k : String) (o : Option ℕ)
      → GoMap.get b.buckets k ≡ o
      → Balanced (resetting k) b (load_and_delete k b o).0 (load_and_delete k b o).1
  load_and_delete-Balanced k none e = record { kept = h; stays = refl; balance = refl }
  load_and_delete-Balanced k (some bucket) e = record {
    kept = record { unique = delete-Unique b.buckets k h.unique; limited = h.limited };
    stays = refl;
    balance = omega (arith, size-delete_present b.buckets k bucket h.unique e);
  }

  compare_and_swap-Balanced :
      (k : String) (cur : ℕ)
      → passes (swapping k cur) ≡ 0
      → Balanced (swapping k cur) b (compare_and_swap k cur b).0 (compare_and_swap k cur b).1
  unfolding compare_and_swap
  compare_and_swap-Balanced k cur p =
      if-elim (λ (r : Call × LocalBackend). Balanced (swapping k cur) b r.0 r.1)
        (b.bucket_count == cur) _ _
        (λ same. record {
          kept = record { unique = h.unique; limited = ground arith };
          stays = refl;
          balance = ground arith;
        })
        (λ other. record { kept = h; stays = refl; balance = refl })

  count_down-Balanced :
      (c c' : Call)
      → owes c ≡ 1
      → owes c' ≡ 0
      → passes c' ≡ 0
      → 1 ≤ b.bucket_count
      → Balanced c b c' (count_down b)
  count_down-Balanced c c' o o' p some_counted = record {
    kept = record { unique = h.unique; limited = omega (arith, h.limited) };
    stays = p;
    balance = omega (arith, o, o');
  }

  after_look-Balanced : (k : String) (o : Option ℕ) → Balanced (looking k) b (after_look k o) b
  after_look-Balanced k none = record { kept = h; stays = refl; balance = refl }
  after_look-Balanced k (some bucket) = record { kept = h; stays = refl; balance = refl }

  reserve-Balanced : (k : String) (cur : ℕ) → Balanced (reserving k) b (reserve k cur) b
  reserve-Balanced k cur =
      let stays : passes (reserve k cur) ≡ 0 = ground arith in
      let owes_none : owes (reserve k cur) ≡ 0 = ground arith in
      record { kept = h; stays = stays; balance = omega (arith, owes_none) }

  move-Balanced : (c : Call) → passes c ≡ 0 → owes c ≤ b.bucket_count → BalancedMove c b (move c b)
  unfolding move
  move-Balanced (looking k) p o = after_look-Balanced k (GoMap.get b.buckets k)
  move-Balanced (reserving k) p o = reserve-Balanced k b.bucket_count
  move-Balanced (swapping k cur) p o = compare_and_swap-Balanced k cur p
  move-Balanced (storing k) p o = load_or_store-Balanced k (GoMap.get b.buckets k) refl
  move-Balanced (giving_back bucket) p o =
      count_down-Balanced (giving_back bucket) (got (some bucket)) refl refl refl o
  move-Balanced (got bucket) p o = tt
  move-Balanced (resetting k) p o = load_and_delete-Balanced k (GoMap.get b.buckets k) refl
  move-Balanced dropping p o = count_down-Balanced dropping was_reset refl refl refl o
  move-Balanced was_reset p o = tt

record Inv (s : System) : Type 0 where
  kept : Kept s.backend
  stays : total passes s.calls ≡ 0
  counted : s.backend.bucket_count ≡ GoMap.size s.backend.buckets + total owes s.calls

begin-Inv : (c : Call) (s : System) → passes c ≡ 0 → owes c ≡ 0 → Inv s → Inv (begin c s)
begin-Inv c s p o h = record {
  kept = h.kept;
  stays = omega (arith, h.stays, total-append passes s.calls c);
  counted = omega (arith, h.counted, total-append owes s.calls c);
}

moved-Inv :
    (s : System) (i : ℕ) (c c' : Call) (b' : LocalBackend)
    → Inv s
    → get_elem? s.calls i ≡ some c
    → Balanced c s.backend c' b'
    → Inv (record { backend = b'; calls = set s.calls i c' })
moved-Inv s i c c' b' h here m = record {
  kept = m.kept;
  stays = omega (
    arith,
    h.stays,
    m.stays,
    total-set passes s.calls i c c' here,
    total-get passes s.calls i c here,
  );
  counted = omega (arith, h.counted, m.balance, total-set owes s.calls i c c' here);
}

moved-some :
    (s t : System) (i : ℕ) (c : Call) (r : Option (Call × LocalBackend))
    → Inv s
    → get_elem? s.calls i ≡ some c
    → BalancedMove c s.backend r
    → moved s i r ≡ some t
    → Inv t
moved-some s t i c none h here m e = absurd (cc)
moved-some s t i c (some (c', b')) h here m e = subst Inv (cc) (moved-Inv s i c c' b' h here m)

move_call-Inv :
    (s t : System) (i : ℕ) (o : Option Call)
    → Inv s
    → get_elem? s.calls i ≡ o
    → move_call s i o ≡ some t
    → Inv t
move_call-Inv s t i none h here e = absurd (cc)
move_call-Inv s t i (some c) h here e =
    moved-some s t i c (move c s.backend) h here
      (move-Balanced s.backend h.kept c (omega (arith, h.stays, total-get passes s.calls i c here))
        (omega (arith, h.counted, total-get owes s.calls i c here)))
      e

step-Inv : (e : Event) (s t : System) → Inv s → step e s ≡ some t → Inv t
unfolding step
step-Inv (begins_check k) s t h q = subst Inv (cc) (begin-Inv (looking k) s refl refl h)
step-Inv (begins_reset k) s t h q = subst Inv (cc) (begin-Inv (resetting k) s refl refl h)
step-Inv (moves i) s t h q = move_call-Inv s t i (get_elem? s.calls i) h refl q

Reach-Inv : {s : System} → Reach s → Inv s
unfolding GoMap.size total
Reach-Inv start = record {
  kept = record { unique = tt; limited = omega arith };
  stays = refl;
  counted = refl;
}
Reach-Inv (later {s} {t} r e q) = step-Inv e s t (Reach-Inv r) q

-- Whatever the interleaving of calls of getOrCreateBucket and Reset, the count is the number of
-- buckets in the map and of the calls that have a place in the count without a bucket, and it is
-- never more than the limit. So the map has no more buckets than the limit, and no call that owes
-- the count a place finds it at 0.
pub bucket_limit :
    {s : System}
    → Reach s
    → (s.backend.bucket_count ≡ GoMap.size s.backend.buckets + total owes s.calls)
      × (GoMap.size s.backend.buckets ≤ max_buckets)
bucket_limit r = let h = Reach-Inv r in (h.counted, omega (arith, h.counted, h.kept.limited))
