-- ===== src/KeyLock/Moves.antt =====
-- The steps of a call that keeps its entry.
use xkit.Prelude.{
  ℕ, ◌+◌, ◌<◌, ◌≡◌, refl, subst, Bool, true, false, not, ◌&&◌, ◌==◌, Option, none, some, List,
  String, length, get_elem?, set, if◌then◌else◌, arith,
}
use xkit.KeyLock.{
  KeyLock, entry_at, set_full, Phase, waiting, sent, backing_out, holding, unlocking, leaving,
  Leaving, Call, active, Choice, send, see_context, see_done, take_default, select, receive,
  advance,
}
use xkit.KeyLock.Invariant.{
  owns, one_if, Inv, IsSame, set_full-IsSame, full-set_full, move-IsCounted, move-IsOwned,
}

-- What a step may do to the locker: it changes the one channel, as the phases require.
record Moves (l l' : KeyLock) (e : ℕ) (ph ph' : Phase) : Type 0 where
  full : Bool
  same : IsSame l l'
  channels :
      (e' : ℕ) → (entry_at l' e').ch_full ≡ (if e == e' then full else (entry_at l e').ch_full)
  balance : one_if (owns ph') + one_if (entry_at l e).ch_full ≡ one_if (owns ph) + one_if full

-- Nothing of the locker changes.
stays : (l : KeyLock) (e : ℕ) (ph ph' : Phase) → owns ph' ≡ owns ph → Moves l l e ph ph'
stays l e ph ph' h = record {
  full = (entry_at l e).ch_full;
  same = record {
    same_refs = λ e. refl;
    same_length = refl;
    same_entries = refl;
    same_count = refl;
    same_max = refl;
  };
  channels = λ e'. ground arith;
  balance = rw h refl;
}

fills :
    (l : KeyLock) (e : ℕ) (ph ph' : Phase) (v : Bool)
    → e < length l.heap
    → one_if (owns ph') + one_if (entry_at l e).ch_full ≡ one_if (owns ph) + one_if v
    → Moves l (set_full l e v) e ph ph'
fills l e ph ph' v lt h = record {
  full = v;
  same = set_full-IsSame l e v lt;
  channels = λ e'. full-set_full l e e' v lt;
  balance = h;
}

-- `Moves` for the result of a step, if there is one.
abbrev Result-Moves : KeyLock → ℕ → Phase → Option (Phase × KeyLock) → Type 0
Result-Moves l e ph none = Unit
Result-Moves l e ph (some (ph', l')) = Moves l l' e ph ph'

if-Moves :
    (l : KeyLock) (e : ℕ) (ph : Phase) (b : Bool) (x y : Option (Phase × KeyLock))
    → (b ≡ true → Result-Moves l e ph x)
    → (b ≡ false → Result-Moves l e ph y)
    → Result-Moves l e ph (if b then x else y)
if-Moves l e ph true x y h k = h refl
if-Moves l e ph false x y h k = k refl

select-Moves :
    (c : Choice) (b : Bool) (e : ℕ) (l : KeyLock)
    → e < length l.heap
    → Result-Moves l e waiting (select c b e l)
unfolding select
select-Moves send b e l lt =
    if-Moves l e waiting (entry_at l e).ch_full none _ (λ h. tt)
      (λ h. fills l e waiting sent true lt (rw h refl))
select-Moves see_context b e l lt =
    if-Moves l e waiting b _ none (λ h. stays l e waiting _ refl) (λ h. tt)
select-Moves see_done b e l lt =
    if-Moves l e waiting (b && l.done) _ none (λ h. stays l e waiting _ refl) (λ h. tt)
select-Moves take_default b e l lt =
    if-Moves l e waiting (not b && (entry_at l e).ch_full) _ none (λ h. stays l e waiting _ refl)
      (λ h. tt)

receive-Moves :
    (e : ℕ) (ph : Phase) (r : Leaving) (l : KeyLock)
    → owns ph ≡ true
    → e < length l.heap
    → Result-Moves l e ph (receive e (leaving r) l)
unfolding receive
receive-Moves e ph r l o lt =
    if-Moves l e ph (entry_at l e).ch_full _ none
      (λ h. fills l e ph (leaving r) false lt (rw (h, o) refl)) (λ h. tt)

advance-Moves :
    (c : Choice) (b : Bool) (e : ℕ) (ph : Phase) (l : KeyLock)
    → e < length l.heap
    → Result-Moves l e ph (advance c b e ph l)
unfolding advance
advance-Moves c b e waiting l lt = select-Moves c b e l lt
advance-Moves c b e sent l lt = stays l e sent _ (ground arith)
advance-Moves c b e backing_out l lt = receive-Moves e backing_out _ l refl lt
advance-Moves c b e holding l lt = stays l e holding unlocking refl
advance-Moves c b e unlocking l lt = receive-Moves e unlocking _ l refl lt
advance-Moves c b e (leaving r) l lt = tt

-- A step of a call that keeps its entry keeps the invariant.
pub advance-Inv :
    (c : Choice) (l l' : KeyLock) (calls : List Call) (i e : ℕ) (b : Bool) (k : String)
    (ph ph' : Phase)
    → get_elem? calls i ≡ some (active b k e ph)
    → advance c b e ph l ≡ some (ph', l')
    → Inv (record { lock = l; calls = calls })
    → Inv (record { lock = l'; calls = set calls i (active b k e ph') })
advance-Inv c l l' calls i e b k ph ph' here moved h =
    let lt = h.counts.present k e (h.counts.located i e b k ph here) in
    let m : Moves l l' e ph ph' = subst (Result-Moves l e ph) moved (advance-Moves c b e ph l lt) in
    record {
      counts = move-IsCounted l l' calls i e b k ph ph' here m.same h.counts;
      owners = move-IsOwned l l' calls i e b k ph ph' here m.full m.channels m.balance h.owners;
    }
