-- ===== src/Delay/Insertion.antt =====
-- The active delay list, and the insertion of `supDelay` into it. NULL stands for the list head in the
-- links, so that the lemmas on the semaphore list apply.
use pandos.Prelude.{
  ℕ, zero, suc, ◌^◌, ◌<◌, ◌≤◌, ◌≡◌, ◌≢◌, refl, ap, ◌∙◌, arith, ◌==◌, ==_iff, if◌then◌else◌, ltb,
  true, false, Bool-cases, inl, inr, List, [], ◌∷◌, ◌++◌, length, ◌∈◌, ◌∉◌, Distinct,
}
use pandos.Prelude.Word.{add32, slt32}
use pandos.Types.{Ptr, null}
use pandos.Run.{ok, Returns, returns}
use pandos.Pcb.{upd}
use pandos.Pcb.Access.{ne_test, upd-ne}
use pandos.Pcb.Pool.{FreeChain, FreeChain-frame}
use pandos.Asl.{max_int}
use pandos.Asl.Activate.{ne_mem}
use pandos.Asl.Place.{
  place_at, insert, linked, place_at-mem, has-insert, insert-Distinct, insert-FreeChain,
}
use pandos.Support.{Support, through}
use pandos.Delay.{delay_list_size, get_link, set_link, place_walk, insert_delay}

-- The order of `int`s as an order of numbers.
abbrev pub bias : ℕ → ℕ
bias x = add32 x (2 ^ 31)

abbrev pub wake_key : Support → Ptr → ℕ
wake_key s d = bias (s.d_wake_time d)

abbrev pub links : Support → Ptr → Ptr
links s b = if b == null then s.delayd_h else s.d_next b

-- The keys do not descend.
abbrev pub IsSorted : (Ptr → ℕ) → List Ptr → Type 0
IsSorted key [] = Unit
IsSorted key (x ∷ xs) = ((y : Ptr) → y ∈ xs → key x ≤ key y) × IsSorted key xs

-- The active delay list: the descriptors `xs` by their wake times, then the dummy tail.
pub record IsAdl (s : Support) (xs : List Ptr) (dummy : Ptr) : Type 0 where
  pub chain : FreeChain (links s) s.delayd_h (xs ++ (dummy ∷ []))
  pub distinct : Distinct (null ∷ (xs ++ (dummy ∷ [])))
  pub sorted : IsSorted (wake_key s) (xs ++ (dummy ∷ []))
  pub last : s.d_wake_time dummy ≡ max_int
  pub tail : s.d_sup_struct dummy ≡ null
  pub owners : (x : Ptr) → x ∈ xs → s.d_sup_struct x ≢ null

slt32-ltb : (a b : ℕ) → slt32 a b ≡ ltb (bias a) (bias b)
slt32-ltb a b = ground arith

max_int-last : (wake : ℕ) → ltb (bias max_int) (bias wake) ≡ false
max_int-last wake = ground arith

place_walk-place_at :
    (fuel wake : ℕ) (s : Support) (before dummy : Ptr) (xs : List Ptr)
    → FreeChain (links s) (links s before) (xs ++ (dummy ∷ []))
    → s.d_wake_time dummy ≡ max_int
    → length xs < fuel
    → place_walk fuel wake before s
      ≡ ok (place_at (wake_key s) (bias wake) before (xs ++ (dummy ∷ []))) s
unfolding place_walk get_link through
place_walk-place_at zero wake s before dummy xs c m lt = absurd (omega arith)
place_walk-place_at (suc fuel) wake s before dummy [] (e, n, c) m lt =
    rw (e, ne_test n, m, slt32-ltb max_int wake, max_int-last wake) refl
place_walk-place_at (suc fuel) wake s before dummy (x ∷ xs) (e, n, c) m lt =
    rw (e, ne_test n, slt32-ltb (s.d_wake_time x) wake)
      (elim (Bool-cases (ltb (wake_key s x) (bias wake))) [
        | inl b ↦ rw b (place_walk-place_at fuel wake s x dummy xs c m (omega arith))
        | inr b ↦ rw b refl
      ])

-- The descriptors by their wake times, with the new one in front of the first that is not due before it.
abbrev pub inserted : Support → (node : Ptr) → List Ptr → List Ptr
inserted s node = insert (wake_key s) (wake_key s node) node

insert-snoc :
    (key : Ptr → ℕ) (w f dummy : Ptr) (xs : List Ptr)
    → ltb (key dummy) w ≡ false
    → insert key w f (xs ++ (dummy ∷ [])) ≡ insert key w f xs ++ (dummy ∷ [])
insert-snoc key w f dummy [] b = rw b refl
insert-snoc key w f dummy (x ∷ xs) b = elim (Bool-cases (ltb (key x) w)) [
  | inl lt ↦ rw (lt, insert-snoc key w f dummy xs b) refl
  | inr ge ↦ rw ge refl
]

insert-IsSorted :
    (key : Ptr → ℕ) (f : Ptr) (ds : List Ptr)
    → IsSorted key ds
    → IsSorted key (insert key (key f) f ds)
insert-IsSorted key f [] o = (λ y i. absurd ground arith, tt)
insert-IsSorted key f (x ∷ xs) (le, o) = elim (Bool-cases (ltb (key x) (key f))) [
  | inl lt ↦ rw lt (
    λ y i. elim (Bool-cases (y == f)) [
      | inl e ↦ rw ((==_iff y f).0 e) (ground arith)
      | inr ne ↦ le y (ground (arith, has-insert y key (key f) f xs))
    ],
    insert-IsSorted key f xs o,
  )
  | inr ge ↦ rw ge (
    λ y i. elim (Bool-cases (y == x)) [
      | inl e ↦ rw ((==_iff y x).0 e) (ground arith)
      | inr ne ↦ let m : y ∈ xs = ground arith in let a = le y m in ground arith
    ],
    (le, o),
  )
]

pub FreeChain-start :
    (n : Ptr → Ptr) {a a' : Ptr} (xs : List Ptr) → a ≡ a' → FreeChain n a' xs → FreeChain n a xs
FreeChain-start n xs e c = rw e c

-- The links when the new descriptor comes first, and when it comes behind `q`.
linked_first :
    (n : Ptr → Ptr) (h node q b : Ptr)
    → node ≢ null
    → (q == null) ≡ true
    → (if b == null then node else upd n node h b)
      ≡ linked (λ c. if c == null then h else n c) node q b
unfolding upd
linked_first n h node q b real e = ground arith

linked_behind :
    (n : Ptr → Ptr) (h node q b : Ptr)
    → node ≢ null
    → (q == null) ≡ false
    → (if b == null then h else upd (upd n node (n q)) q node b)
      ≡ linked (λ c. if c == null then h else n c) node q b
unfolding upd
linked_behind n h node q b real e = ground arith

module _ {s : Support} {xs : List Ptr} {dummy : Ptr} (adl : IsAdl s xs dummy) {node : Ptr}
    (real : node ≢ null) (fresh : node ∉ (xs ++ (dummy ∷ [])))
    (owner : s.d_sup_struct node ≢ null) where
  abbrev place : Ptr
  place = place_at (wake_key s) (wake_key s node) null (xs ++ (dummy ∷ []))

  place-in : (place == null) ≡ false → place ∈ (xs ++ (dummy ∷ []))
  place-in ne =
      let m = place_at-mem (wake_key s) (wake_key s node) null (xs ++ (dummy ∷ [])) in ground arith

  dummy-last : ltb (wake_key s dummy) (wake_key s node) ≡ false
  dummy-last = rw adl.last (max_int-last (s.d_wake_time node))

  whole : inserted s node (xs ++ (dummy ∷ [])) ≡ inserted s node xs ++ (dummy ∷ [])
  whole = insert-snoc (wake_key s) (wake_key s node) node dummy xs dummy-last

  linked-IsAdl :
      (t : Support)
      → ((b : Ptr) → links t b ≡ linked (links s) node place b)
      → t.d_wake_time ≡ s.d_wake_time
      → t.d_sup_struct ≡ s.d_sup_struct
      → IsAdl t (inserted s node xs) dummy
  linked-IsAdl t same wake sup =
      let apart : node ∉ (null ∷ (xs ++ (dummy ∷ []))) = ground arith in
      let chain =
        insert-FreeChain (links s) (wake_key s) (wake_key s node) node null (xs ++ (dummy ∷ []))
          real adl.distinct apart adl.chain in
      let head : t.delayd_h ≡ linked (links s) node place null = same null in
      record {
        chain =
            rw⁻¹ whole
              (FreeChain-start _ _ head (FreeChain-frame _ (links t) _ _ (λ b i. same b) chain));
        distinct = rw⁻¹ whole (
            ground (
              arith,
              adl.distinct,
              has-insert null (wake_key s) (wake_key s node) node (xs ++ (dummy ∷ [])),
              insert-Distinct (wake_key s) (wake_key s node) node _ adl.distinct.1 fresh,
            ));
        sorted = rw⁻¹ whole (rw wake (insert-IsSorted (wake_key s) node _ adl.sorted));
        last = ap (λ f. f dummy) wake ∙ adl.last;
        tail = ap (λ f. f dummy) sup ∙ adl.tail;
        owners = λ x i. rw sup (elim (Bool-cases (x == node)) [
          | inl e ↦ rw ((==_iff x node).0 e) owner
          | inr ne ↦
              adl.owners x (ground (arith, has-insert x (wake_key s) (wake_key s node) node xs))
        ]);
      }

  -- `supDelay`'s insertion of a new descriptor with an owner into an active delay list of at most 8
  -- descriptors returns, and the list is the sorted one with the descriptor in front of the first that
  -- is not due before it; nothing but links has changed, and no link of a descriptor that is not in
  -- the list.
  pub insert_delay-IsAdl :
      length xs < delay_list_size
      → Returns
          (λ _ t.
            IsAdl t (inserted s node xs) dummy
            × (t ≡ record s { d_next = t.d_next; delayd_h = t.delayd_h })
            × ((b : Ptr) → b ≢ node → b ∉ (xs ++ (dummy ∷ [])) → t.d_next b ≡ s.d_next b))
          (insert_delay node s)
  unfolding insert_delay set_link get_link through
  insert_delay-IsAdl short =
      rw
        (
          place_walk-place_at delay_list_size (s.d_wake_time node) s null dummy xs adl.chain
              adl.last short,
          ne_test real,
        )
        (elim (Bool-cases (place == null)) [
          | inl e ↦ rw e (
              returns (
                linked-IsAdl _ (λ b. linked_first s.d_next s.delayd_h node place b real e) refl
                    refl,
                refl,
                λ b n o. upd-ne _ _ n,
              ))
          | inr ne ↦
              rw (ne, ne)
                (returns (
                  linked-IsAdl _ (λ b. linked_behind s.d_next s.delayd_h node place b real ne) refl
                      refl,
                  refl,
                  λ b n o. upd-ne _ _ (ne_mem _ b place (place-in ne) o) ∙ upd-ne _ _ n,
                ))
        ])
