-- ===== src/Crdt/VectorClock/Order.antt =====
-- The causal order is the pointwise strict order, and a merge is the least clock above both.
use pactum.Prelude.{
  ◌+◌, ◌≤◌, ◌≡◌, refl, sym, ap, subst, inl, inr, ◌⊎◌, ◌↔◌, List, [], ◌∷◌, ◌++◌, Bool, true, false,
  ◌||◌, Bool-cases, if◌then◌else◌, ltb, none, Text, arith,
}
use pactum.Prelude.Js.{JsSet, has, add, has-add, get, keys, text_key, get_absent}
use pactum.Crdt.VectorClock.{
  Clock, value_or_0, counter, add_all, all_keys, happens_before_loop, happens_before,
  are_concurrent_loop, are_concurrent,
}

has-append : (xs ys : List Text) (k : Text) → has (xs ++ ys) k ≡ (has xs k || has ys k)
unfolding has
has-append [] ys k = refl
has-append (x ∷ xs) ys k = ground (arith, has-append xs ys k)

has-add_all :
    (s : JsSet Text) (ks : List Text) (k : Text) → has (add_all s ks) k ≡ (has ks k || has s k)
unfolding add_all has
has-add_all s [] k = refl
has-add_all s (x ∷ ks) k = ground (arith, has-add_all (add s x) ks k, has-add s x k)

-- A peer outside the keys of both clocks counts 0 in both.
pub outside :
    (a b : Clock) (k : Text) → has (all_keys a b) k ≡ false → (counter a k ≡ 0) × (counter b k ≡ 0)
unfolding all_keys counter has value_or_0
outside a b k h =
    let e = has-add_all [] (keys a ++ keys b) k in
    let f = has-append (keys a) (keys b) k in
    let p : get a k ≡ none = get_absent a k (ground arith) in
    let q : get b k ≡ none = get_absent b k (ground arith) in (ap value_or_0 p, ap value_or_0 q)

pub keep_flag : (t f : Bool) → t ≡ false → (if t then true else f) ≡ true → f ≡ true
keep_flag true f e h = ground arith
keep_flag false f e h = h

-- A flag that a key of the list raises is raised by its head or by a key of its tail.
raise_flag :
    (a b : Clock) (f : Bool) (x : Text) (ks : List Text) (k : Text)
    → counter a k + 1 ≤ counter b k
    → (f ≡ true) ⊎ (has (x ∷ ks) k ≡ true)
    → ((if ltb (counter a x) (counter b x) then true else f) ≡ true) ⊎ (has ks k ≡ true)
unfolding has
raise_flag a b true x ks k less s = inl (ground arith)
raise_flag a b false x ks k less (inl s) = ground arith
raise_flag a b false x ks k less (inr m) = elim (Bool-cases (text_key.same x k)) [
  | inl same ↦
      let z : counter a x + 1 ≤ counter b x =
        subst (λ y. counter a y + 1 ≤ counter b y) (sym ((text_key.same_iff x k).0 same)) less in
      inl (ground arith)
  | inr distinct ↦ inr (ground arith)
]

module _ (a b : Clock) where
  before_sound :
      (strict : Bool) (ks : List Text)
      → happens_before_loop a b strict ks ≡ true
      → ((k : Text) → has ks k ≡ true → counter a k ≤ counter b k)
        × ((strict ≡ true) ⊎ ((k : Text) × (counter a k + 1 ≤ counter b k)))
  unfolding happens_before_loop has
  before_sound strict [] h = ((λ k m. ground arith), inl h)
  before_sound strict (x ∷ ks) h = elim (Bool-cases (ltb (counter b x) (counter a x))) [
    | inl above ↦ ground arith
    | inr below ↦
        let le : counter a x ≤ counter b x = ground arith in
        let (low, some_less) =
          before_sound (if ltb (counter a x) (counter b x) then true else strict) ks
            (ground arith) in
        (
          (λ k m. elim (Bool-cases (text_key.same x k)) [
            | inl same ↦ subst (λ y. counter a y ≤ counter b y) ((text_key.same_iff x k).0 same) le
            | inr distinct ↦ low k (ground arith)
          ]),
          elim (Bool-cases (ltb (counter a x) (counter b x))) [
            | inl less ↦ inr (x, ground arith)
            | inr equal ↦ elim some_less [ inl s ↦ inl (ground arith) | inr w ↦ inr w ]
          ],
        )
  ]

  before_complete :
      (strict : Bool) (ks : List Text) (k : Text)
      → ((j : Text) → counter a j ≤ counter b j)
      → counter a k + 1 ≤ counter b k
      → (strict ≡ true) ⊎ (has ks k ≡ true)
      → happens_before_loop a b strict ks ≡ true
  unfolding happens_before_loop has
  before_complete strict [] k le less (inl s) = s
  before_complete strict [] k le less (inr m) = ground arith
  before_complete strict (x ∷ ks) k le less s =
      let here = le x in
      let rest =
        before_complete (if ltb (counter a x) (counter b x) then true else strict) ks k le less in
      elim (Bool-cases (text_key.same x k)) [
        | inl same ↦
            let z : counter a x + 1 ≤ counter b x =
              subst (λ y. counter a y + 1 ≤ counter b y) (sym ((text_key.same_iff x k).0 same))
                less in
            let r = rest (inl (ground arith)) in ground arith
        | inr distinct ↦ elim s [
          | inl t ↦ let r = rest (inl (ground arith)) in ground arith
          | inr m ↦ let r = rest (inr (ground arith)) in ground arith
        ]
      ]

  -- A clock happens before another exactly when no counter is above, and some counter below, that
  -- of the other clock, over all peers, with or without entries.
  pub happens_before_iff :
      (happens_before a b ≡ true)
      ↔ (((k : Text) → counter a k ≤ counter b k) × ((k : Text) × (counter a k + 1 ≤ counter b k)))
  unfolding happens_before
  happens_before_iff = (
    (λ h.
        let (low, some_less) = before_sound false (all_keys a b) h in
        (
          (λ k. elim (Bool-cases (has (all_keys a b) k)) [
            | inl known ↦ low k known
            | inr unknown ↦ let (za, zb) = outside a b k unknown in omega (arith, za, zb)
          ]),
          elim some_less [ inl s ↦ ground arith | inr w ↦ w ],
        )),
    λ (le, (k, less)). before_complete false (all_keys a b) k le less (
        inr (elim (Bool-cases (has (all_keys a b) k)) [
          | inl known ↦ known
          | inr unknown ↦ let (za, zb) = outside a b k unknown in ground arith
        ])),
  )

  concurrent_sound :
      (less greater : Bool) (ks : List Text)
      → are_concurrent_loop a b less greater ks ≡ true
      → ((less ≡ true) ⊎ ((k : Text) × (counter a k + 1 ≤ counter b k)))
        × ((greater ≡ true) ⊎ ((k : Text) × (counter b k + 1 ≤ counter a k)))
  unfolding are_concurrent_loop
  concurrent_sound less greater [] h = (inl (ground arith), inl (ground arith))
  concurrent_sound less greater (x ∷ ks) h =
      let (l, g) =
        concurrent_sound (if ltb (counter a x) (counter b x) then true else less)
          (if ltb (counter b x) (counter a x) then true else greater) ks h in
      (
        elim (Bool-cases (ltb (counter a x) (counter b x))) [
          | inl here ↦ inr (x, ground arith)
          | inr miss ↦ elim l [ inl e ↦ inl (keep_flag _ less miss e) | inr w ↦ inr w ]
        ],
        elim (Bool-cases (ltb (counter b x) (counter a x))) [
          | inl here ↦ inr (x, ground arith)
          | inr miss ↦ elim g [ inl e ↦ inl (keep_flag _ greater miss e) | inr w ↦ inr w ]
        ],
      )

  concurrent_complete :
      (less greater : Bool) (ks : List Text) (j k : Text)
      → counter a j + 1 ≤ counter b j
      → counter b k + 1 ≤ counter a k
      → (less ≡ true) ⊎ (has ks j ≡ true)
      → (greater ≡ true) ⊎ (has ks k ≡ true)
      → are_concurrent_loop a b less greater ks ≡ true
  unfolding are_concurrent_loop has
  concurrent_complete less greater [] j k l g p q = ground arith
  concurrent_complete less greater (x ∷ ks) j k l g p q =
      concurrent_complete (if ltb (counter a x) (counter b x) then true else less)
        (if ltb (counter b x) (counter a x) then true else greater) ks j k l g
        (raise_flag a b less x ks j l p) (raise_flag b a greater x ks k g q)

  listed :
      (k : Text)
      → (counter a k + 1 ≤ counter b k) ⊎ (counter b k + 1 ≤ counter a k)
      → has (all_keys a b) k ≡ true
  listed k s = elim (Bool-cases (has (all_keys a b) k)) [
    | inl known ↦ known
    | inr unknown ↦ let (za, zb) = outside a b k unknown in ground arith
  ]

  -- Two clocks are concurrent exactly when each counts more than the other for some peer.
  pub are_concurrent_iff : (are_concurrent a b ≡ true) ↔ (
      ((j : Text) × (counter a j + 1 ≤ counter b j))
      × ((k : Text) × (counter b k + 1 ≤ counter a k)))
  unfolding are_concurrent
  are_concurrent_iff = (
    (λ h.
        let (l, g) = concurrent_sound false false (all_keys a b) h in
        (elim l [ inl e ↦ ground arith | inr w ↦ w ], elim g [ inl e ↦ ground arith | inr w ↦ w ])),
    λ ((j, l), (k, g)).
        concurrent_complete false false (all_keys a b) j k l g (inr (listed j (inl l)))
          (inr (listed k (inr g))),
  )

-- The causal order is transitive.
pub happens_before_trans :
    (a b c : Clock)
    → happens_before a b ≡ true
    → happens_before b c ≡ true
    → happens_before a c ≡ true
happens_before_trans a b c p q =
    let (le, (k, less)) = (happens_before_iff a b).0 p in
    let (le', _) = (happens_before_iff b c).0 q in
    (happens_before_iff a c).1
      ((λ j. let u = le j in let v = le' j in omega arith), (k, let v = le' k in omega arith))

-- A clock that happens before another does not happen after it, and the two are not concurrent.
pub happens_before_excludes :
    (a b : Clock)
    → happens_before a b ≡ true
    → (happens_before b a ≡ false) × (are_concurrent a b ≡ false)
happens_before_excludes a b p =
    let (le, (k, less)) = (happens_before_iff a b).0 p in
    (
      elim (Bool-cases (happens_before b a)) [
        | inl before ↦
            let (le', _) = (happens_before_iff b a).0 before in let v = le' k in ground arith
        | inr fine ↦ fine
      ],
      elim (Bool-cases (are_concurrent a b)) [
        | inl conc ↦
            let (_, (j, more)) = (are_concurrent_iff a b).0 conc in let v = le j in ground arith
        | inr fine ↦ fine
      ],
    )
