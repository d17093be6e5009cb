-- ===== src/Delay/Daemon.antt =====
-- The round of the delay daemon: which processes it wakes.
use pandos.Prelude.{
  ne_of_mem, Distinct-append, ℕ, zero, suc, ◌+◌, ◌<◌, ◌≡◌, ◌≢◌, refl, ap, ◌∙◌, arith, true, false,
  not, List, [], ◌∷◌, ◌++◌, length, ◌∈◌, ◌∉◌, Distinct, has-append,
}
use mathlib.Core.List.{append_assoc}
use mathlib.Core.Path.{subst}
use pandos.Prelude.Word.{slt32}
use pandos.Types.{Ptr, null}
use pandos.Run.{Returns, returns, Returns-bind, Returns-mono}
use pandos.Pcb.Access.{ne_test, upd_self, upd-ne}
use pandos.Pcb.Pool.{FreeChain, FreeChain-frame}
use pandos.Support.{Support, Places, Event, called, System, through}
use pandos.Support.Number
use pandos.Support.Quiet.{IsQuiet, syscall_-Called}
use pandos.Delay.{delay_list_size, is_expired, wake_loop}
use pandos.Delay.Due.{
  select, is_later, select_split, IsSorted-append_right, IsSorted-append_left, false_of_not,
  select-holds, length-select, FreeChain-links, links-FreeChain,
}
use pandos.Delay.Insertion.{IsAdl, IsSorted, wake_key, FreeChain-start}

-- The Vs on the private semaphores of the owners, the last one first.
abbrev pub wakes : Places → (Ptr → Ptr) → List Ptr → List Event → List Event
wakes l owner [] es = es
wakes l owner (x ∷ xs) es =
    wakes l owner xs (called Number.verhogen (l.private_sem (owner x)) 0 0 ∷ es)

-- The descriptors in front of a list, in reverse order.
abbrev pub onto : List Ptr → List Ptr → List Ptr
onto [] fs = fs
onto (x ∷ xs) fs = onto xs (x ∷ fs)

-- The descriptors `xs` have gone from the active list, which was at `curr`, to the free list `fs`.
pub record Woken (l : Places) (xs ys fs : List Ptr) (s t : Support) : Type 0 where
  pub active : FreeChain t.d_next t.delayd_h ys
  pub free : FreeChain t.d_next t.delayd_free_h (onto xs fs)
  pub trace : t.trace ≡ wakes l s.d_sup_struct xs s.trace
  pub wake_time : t.d_wake_time ≡ s.d_wake_time
  pub sup_struct : t.d_sup_struct ≡ s.d_sup_struct

-- The descriptor is due, and the loop goes on to the next.
abbrev pub IsDue : (now : ℕ) → Support → Ptr → Type 0
IsDue now s x = (s.d_sup_struct x ≢ null) × (slt32 now (s.d_wake_time x) ≡ false)

not-mem_left : (x : Ptr) (xs ys : List Ptr) → x ∉ (xs ++ ys) → x ∉ xs
not-mem_left x xs ys o = ground (arith, has-append x xs ys)

module _ (y : System) (l : Places)
    (quiet : (sem : Ptr) → IsQuiet y Number.verhogen sem 0 0 (λ _. Unit)) (now : ℕ) where
  wake_loop-Woken :
      (fuel : ℕ) (xs : List Ptr) (z : Ptr) (ys fs : List Ptr) (curr : Ptr) (s : Support)
      → length xs < fuel
      → s.delayd_h ≡ curr
      → FreeChain s.d_next curr (xs ++ (z ∷ ys))
      → FreeChain s.d_next s.delayd_free_h fs
      → Distinct (xs ++ (z ∷ ys))
      → ((x : Ptr) → x ∈ xs → x ∉ fs)
      → ((x : Ptr) → x ∈ xs → IsDue now s x)
      → is_expired now z s ≡ false
      → Returns (λ _ t. Woken l xs (z ∷ ys) fs s t) (wake_loop y l fuel now null curr s)
  unfolding wake_loop is_expired through
  wake_loop-Woken zero xs z ys fs curr s lt h a f d o due stop = absurd (omega arith)
  wake_loop-Woken (suc fuel) [] z ys fs curr s lt h (e, n, a) f d o due stop =
      rw (e, stop)
        (returns (record {
          active = (h ∙ e, n, a);
          free = f;
          trace = refl;
          wake_time = refl;
          sup_struct = refl;
        }))
  wake_loop-Woken (suc fuel) (x ∷ xs) z ys fs curr s lt h (e, n, a) f d o due stop =
      let (owner, late) = due x (ground arith) in
      rw (e, ne_test n, ne_test owner, late)
        (Returns-bind (syscall_-Called y _ _ _ _ _ (quiet _) s) λ _ t q. rw q.state (
          Returns-mono
            (wake_loop-Woken fuel xs z ys (x ∷ fs) (s.d_next x) _ (omega arith) refl
              (FreeChain-frame s.d_next _ _ _ (λ b i. upd-ne _ _ (ne_of_mem (xs ++ (z ∷ ys)) i d.0))
                a)
              (
                refl,
                n,
                FreeChain-start _ _ (upd_self _ _ _) (
                    FreeChain-frame s.d_next _ _ _
                      (λ b i. upd-ne _ _ (ne_of_mem fs i (o x (ground arith)))) f),
              )
              d.1 (λ b i. ground (arith, o b, ne_of_mem xs i (not-mem_left x xs (z ∷ ys) d.0)))
              (λ b i. due b (ground arith)) stop)
            λ _ u w. record {
              active = w.active;
              free = w.free;
              trace = w.trace;
              wake_time = w.wake_time;
              sup_struct = w.sup_struct;
            }))

-- Where the loop stops: the first descriptor of the rest, or the dummy tail.
not_expired :
    (now : ℕ) (s : Support) (dummy : Ptr) (ys : List Ptr)
    → s.d_sup_struct dummy ≡ null
    → ((y : Ptr) → y ∈ ys → is_later now s y ≡ true)
    → (z' : Ptr) × (zs : List Ptr) × (ys ++ (dummy ∷ []) ≡ z' ∷ zs) × (is_expired now z' s ≡ false)
unfolding is_expired
not_expired now s dummy [] tail later = (dummy, [], refl, rw tail (ground arith))
not_expired now s dummy (y ∷ ys) tail later =
    (y, ys ++ (dummy ∷ []), refl, let e = later y (ground arith) in rw e (ground arith))

-- A round of the daemon: the due descriptors are free and their owners woken in the order of their
-- wake times, and the active list has the others.
pub record Round (l : Places) (now : ℕ) (xs fs : List Ptr) (dummy : Ptr) (s t : Support)
    : Type 0 where
  pub active : IsAdl t (select (is_later now s) xs) dummy
  pub free : FreeChain t.d_next t.delayd_free_h (onto (select (λ x. not (is_later now s x)) xs) fs)
  pub trace : t.trace ≡ wakes l s.d_sup_struct (select (λ x. not (is_later now s x)) xs) s.trace

module _ {s : Support} {dummy : Ptr} (l : Places) (ws rest fs : List Ptr)
    (adl : IsAdl s (ws ++ rest) dummy) where
  regroup : (ws ++ rest) ++ (dummy ∷ []) ≡ ws ++ (rest ++ (dummy ∷ []))
  regroup = append_assoc ws rest (dummy ∷ [])

  Woken-IsAdl : {t : Support} → Woken l ws (rest ++ (dummy ∷ [])) fs s t → IsAdl t rest dummy
  Woken-IsAdl {t} w =
      let d : Distinct (null ∷ (ws ++ (rest ++ (dummy ∷ [])))) = rw regroup at adl.distinct in
      let o : IsSorted (wake_key s) (ws ++ (rest ++ (dummy ∷ []))) = rw regroup at adl.sorted in
      record {
        chain = links-FreeChain t _ _ w.active;
        distinct = (
          ground (arith, d, has-append null ws (rest ++ (dummy ∷ []))),
          (Distinct-append ws _ d.1).1,
        );
        sorted = rw w.wake_time (IsSorted-append_right (wake_key s) ws _ o);
        last = rw w.wake_time adl.last;
        tail = rw w.sup_struct adl.tail;
        owners =
            λ x i. rw w.sup_struct (adl.owners x (rw (has-append x ws rest, i) (ground arith)));
      }

module _ (y : System) (l : Places)
    (quiet : (sem : Ptr) → IsQuiet y Number.verhogen sem 0 0 (λ _. Unit)) (now : ℕ)
    {s : Support} where
  wake_loop-split :
      {dummy : Ptr} (ws rest fs : List Ptr)
      → IsAdl s (ws ++ rest) dummy
      → length ws < delay_list_size + 1
      → FreeChain s.d_next s.delayd_free_h fs
      → ((x : Ptr) → x ∈ ws → x ∉ fs)
      → ((x : Ptr) → x ∈ ws → is_later now s x ≡ false)
      → ((x : Ptr) → x ∈ rest → is_later now s x ≡ true)
      → Returns
          (λ _ t. Woken l ws (rest ++ (dummy ∷ [])) fs s t)
          (wake_loop y l (delay_list_size + 1) now null s.delayd_h s)
  wake_loop-split {dummy} ws rest fs adl short free apart due later =
      let (z, zs, q, stop) = not_expired now s dummy rest adl.tail later in
      let e = regroup l ws rest fs adl ∙ ap (λ ds. ws ++ ds) q in
      let c : FreeChain s.d_next s.delayd_h ((ws ++ rest) ++ (dummy ∷ [])) =
        FreeChain-links s _ _ adl.chain in
      let d : Distinct ((ws ++ rest) ++ (dummy ∷ [])) = adl.distinct.1 in
      rw q (
        wake_loop-Woken y l quiet now (delay_list_size + 1) ws z zs fs s.delayd_h s short refl
          (rw e at c) free (rw e at d) apart
          (λ x i. (adl.owners x (rw (has-append x ws rest, i) refl), due x i)) stop)

  -- When a V returns quietly, the daemon's loop on an active delay list of at most 8 descriptors and a
  -- free list apart from it returns; it has made one V on the private semaphore of each owner whose
  -- wake time has come, in the order of the list, and no other; those descriptors are on the free list
  -- and the others, still sorted, are the active list.
  pub wake_loop-Round :
      {dummy : Ptr} {xs fs : List Ptr}
      → IsAdl s xs dummy
      → length xs < delay_list_size
      → FreeChain s.d_next s.delayd_free_h fs
      → ((x : Ptr) → x ∈ xs → x ∉ fs)
      → Returns
          (λ _ t. Round l now xs fs dummy s t)
          (wake_loop y l (delay_list_size + 1) now null s.delayd_h s)
  wake_loop-Round {dummy} {xs} {fs} adl short free apart =
      let ws = select (λ x. not (is_later now s x)) xs in
      let rest = select (is_later now s) xs in
      let e = select_split now s xs (IsSorted-append_left (wake_key s) xs _ adl.sorted) in
      let split : IsAdl s (ws ++ rest) dummy = subst (λ ds. IsAdl s ds dummy) e adl in
      Returns-mono
        (wake_loop-split ws rest fs split
          (omega (arith, length-select (λ x. not (is_later now s x)) xs)) free
          (λ x i. apart x (select-holds _ x xs i).1)
          (λ x i. false_of_not (select-holds (λ x. not (is_later now s x)) x xs i).0)
          (λ x i. (select-holds (is_later now s) x xs i).0))
        λ _ t w. record {
          active = Woken-IsAdl l ws rest fs split w;
          free = w.free;
          trace = w.trace;
        }
