-- ===== src/RedisQueue/Async/Leaves.antt =====
-- Which channels the loops wait on.
use dota2_analysis.Base.{
  ℕ, ◌+◌, ◌≤◌, ◌<◌, ◌≡◌, refl, sym, ap, subst, ◌∙◌, Bool, true, false, ◌||◌, ◌⊎◌, inl, inr, List,
  [], ◌∷◌, ◌++◌, ◌==◌, All, All-append, All-mono, Bool-cases, arith,
}
use dota2_analysis.RedisQueue.Async.{
  Loop, running, waiting, System, fresh, enable_async_retry, stop_async_retry, Step, enables, stops,
  selects, ticks, leaves, Reach, here, next,
}

abbrev pub WaitsOn : (closed : ℕ → Bool) (stop_ch : ℕ) → Loop → Type 0
WaitsOn closed stop_ch running = Unit
WaitsOn closed stop_ch (waiting ch) = (closed ch ≡ true) ⊎ (ch ≡ stop_ch)

-- Each loop waits on a channel that is closed or on that of the queue, which is closed while the queue
-- is not started.
pub record IsTidy (s : System) : Type 0 where
  pub stopped : s.started ≡ false → s.closed s.stop_ch ≡ true
  pub known : s.stop_ch ≤ s.made
  pub unmade : (ch : ℕ) → s.made < ch → s.closed ch ≡ false
  pub waits : All (WaitsOn s.closed s.stop_ch) s.loops

All-split :
    (P : Loop → Type 0) (xs ys : List Loop) (l : Loop)
    → All P (xs ++ l ∷ ys)
    → All P xs × P l × All P ys
All-split P [] ys l h = (tt, h.0, h.1)
All-split P (x ∷ xs) ys l h = let (a, b, c) = All-split P xs ys l h.1 in ((h.0, a), b, c)

All-join :
    (P : Loop → Type 0) (xs ys : List Loop) (l : Loop)
    → All P xs
    → P l
    → All P ys
    → All P (xs ++ l ∷ ys)
All-join P [] ys l h p k = (p, k)
All-join P (x ∷ xs) ys l h p k = (h.0, All-join P xs ys l h.1 p k)

waits-closed :
    (closed : ℕ → Bool) (stop_ch made : ℕ) (l : Loop)
    → closed stop_ch ≡ true
    → WaitsOn closed stop_ch l
    → WaitsOn closed made l
waits-closed closed stop_ch made running h w = tt
waits-closed closed stop_ch made (waiting ch) h (inl c) = inl c
waits-closed closed stop_ch made (waiting ch) h (inr e) = inl (ap closed e ∙ h)

waits-more :
    (closed : ℕ → Bool) (stop_ch : ℕ) (l : Loop)
    → WaitsOn closed stop_ch l
    → WaitsOn (λ ch. ch == stop_ch || closed ch) stop_ch l
waits-more closed stop_ch running w = tt
waits-more closed stop_ch (waiting ch) (inl c) = inl (ground arith)
waits-more closed stop_ch (waiting ch) (inr e) = inr e

enable-IsTidy : (s : System) → IsTidy s → IsTidy (enable_async_retry s)
unfolding enable_async_retry
enable-IsTidy s v = elim (Bool-cases s.started) [
  | inl on ↦ let same : enable_async_retry s ≡ s = ground (arith, on) in subst IsTidy (sym same) v
  | inr off ↦
      rw (off, enable_async_retry)
        (record {
          stopped = λ h. absurd (ground (arith, h));
          known = omega arith;
          unmade = λ ch h. v.unmade ch (omega (arith, h));
          waits =
              All-append (WaitsOn s.closed (s.made + 1)) s.loops (running ∷ [])
                (All-mono (WaitsOn s.closed s.stop_ch) (WaitsOn s.closed (s.made + 1)) s.loops
                  (λ l w. waits-closed s.closed s.stop_ch (s.made + 1) l (v.stopped off) w) v.waits)
                (tt, tt);
        })
]

stop-IsTidy : (s : System) → IsTidy s → IsTidy (stop_async_retry s)
unfolding stop_async_retry
stop-IsTidy s v = elim (Bool-cases s.started) [
  | inr off ↦ let same : stop_async_retry s ≡ s = ground (arith, off) in subst IsTidy (sym same) v
  | inl on ↦
      rw (on, stop_async_retry)
        (record {
          stopped = λ h. ground arith;
          known = v.known;
          unmade = λ ch h. ground (arith, v.unmade ch h, v.known);
          waits =
              All-mono (WaitsOn s.closed s.stop_ch)
                (WaitsOn (λ ch. ch == s.stop_ch || s.closed ch) s.stop_ch) s.loops
                (λ l w. waits-more s.closed s.stop_ch l w) v.waits;
        })
]

-- A loop may be replaced by one that waits on a channel as it should, or be taken out.
swap-IsTidy :
    (s : System) (xs ys : List Loop) (l l' : Loop)
    → IsTidy s
    → s.loops ≡ xs ++ l ∷ ys
    → WaitsOn s.closed s.stop_ch l'
    → IsTidy (record s { loops = xs ++ l' ∷ ys })
swap-IsTidy s xs ys l l' v e w =
    let P : Loop → Type 0 = WaitsOn s.closed s.stop_ch in
    let (a, b, c) = All-split P xs ys l (subst (All P) e v.waits) in
    record {
      stopped = v.stopped;
      known = v.known;
      unmade = v.unmade;
      waits = All-join P xs ys l' a w c;
    }

drop-IsTidy :
    (s : System) (xs ys : List Loop) (l : Loop)
    → IsTidy s
    → s.loops ≡ xs ++ l ∷ ys
    → IsTidy (record s { loops = xs ++ ys })
drop-IsTidy s xs ys l v e =
    let P : Loop → Type 0 = WaitsOn s.closed s.stop_ch in
    let (a, b, c) = All-split P xs ys l (subst (All P) e v.waits) in
    record {
      stopped = v.stopped;
      known = v.known;
      unmade = v.unmade;
      waits = All-append P xs ys a c;
    }

Step-IsTidy : {a b : System} → IsTidy a → Step a b → IsTidy b
Step-IsTidy v (enables s) = enable-IsTidy s v
Step-IsTidy v (stops s) = stop-IsTidy s v
Step-IsTidy v (selects s xs ys e) = swap-IsTidy s xs ys running (waiting s.stop_ch) v e (inr refl)
Step-IsTidy v (ticks s xs ys ch e) = swap-IsTidy s xs ys (waiting ch) running v e tt
Step-IsTidy v (leaves s xs ys ch e c) = drop-IsTidy s xs ys (waiting ch) v e

pub fresh-IsTidy : IsTidy fresh
fresh-IsTidy = record {
  stopped = λ h. refl;
  known = omega arith;
  unmade = λ ch h. ground (arith, h);
  waits = tt;
}

pub Reach-IsTidy : {a b : System} → Reach a b → IsTidy a → IsTidy b
Reach-IsTidy (here s) v = v
Reach-IsTidy (next a b c r s) v = Step-IsTidy (Reach-IsTidy r v) s

abbrev pub CanLeave : (closed : ℕ → Bool) → Loop → Type 0
CanLeave closed running = Unit
CanLeave closed (waiting ch) = closed ch ≡ true

waits-CanLeave :
    (closed : ℕ → Bool) (stop_ch : ℕ) (l : Loop)
    → closed stop_ch ≡ true
    → WaitsOn closed stop_ch l
    → CanLeave closed l
waits-CanLeave closed stop_ch running h w = tt
waits-CanLeave closed stop_ch (waiting ch) h (inl c) = c
waits-CanLeave closed stop_ch (waiting ch) h (inr e) = ap closed e ∙ h

-- Whatever calls and turns of loops lead to a queue without async retries, each loop that waits can
-- leave, and one that is about to wait will wait on a channel that is closed.
pub Reach-CanLeave :
    {s : System}
    → Reach fresh s
    → s.started ≡ false
    → (s.closed s.stop_ch ≡ true) × All (CanLeave s.closed) s.loops
Reach-CanLeave {s} r off =
    let v = Reach-IsTidy r fresh-IsTidy in
    (
      v.stopped off,
      All-mono (WaitsOn s.closed s.stop_ch) (CanLeave s.closed) s.loops
          (λ l w. waits-CanLeave s.closed s.stop_ch l (v.stopped off) w) v.waits,
    )
