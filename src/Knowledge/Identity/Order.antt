-- ===== src/Knowledge/Identity/Order.antt =====
-- identity.ts: the manifest and the order in which the members are enumerated.
use mathlib.Core.List.{Permᴰ, Memᴰ}
use secure_home_agent_platfo.Prelude.{
  ◌≡◌, refl, sym, ap, ◌∙◌, inl, inr, true, false, List, [], ◌∷◌, ◌++◌, text, Str, Bool-cases,
}
use secure_home_agent_platfo.Core.Canonical.Less.{less-total, less-asym, before-not}
use secure_home_agent_platfo.Core.Canonical.{less, insert, canonical_sort}
use secure_home_agent_platfo.Knowledge.Identity.{
  SourceFile, row_of, rows_of, rows_bytes, manifest_bytes, bundle_digest,
}

module _ {A : Type 0} (key : A → Str) where
  insert_past :
      (x z : A) (zs : List A)
      → less (key z) (key x) ≡ true
      → insert key x (z ∷ zs) ≡ z ∷ insert key x zs
  unfolding insert
  insert_past x z zs e = rw e refl

  insert_here :
      (x z : A) (zs : List A) → less (key z) (key x) ≡ false → insert key x (z ∷ zs) ≡ x ∷ z ∷ zs
  unfolding insert
  insert_here x z zs e = rw e refl

  insert_nil : (x : A) → insert key x [] ≡ x ∷ []
  unfolding insert
  insert_nil x = refl

  insert-swap :
      (x y : A) (zs : List A)
      → less (key x) (key y) ≡ true
      → insert key x (insert key y zs) ≡ insert key y (insert key x zs)
  insert-swap x y [] e =
      ap (insert key x) (insert_nil y)
      ∙ (insert_here x y [] (less-asym (key x) (key y) e)
          ∙ sym (
              ap (insert key y) (insert_nil x)
              ∙ (insert_past y x [] e ∙ ap (λ l. x ∷ l) (insert_nil y))))
  insert-swap x y (z ∷ zs) e = elim (Bool-cases (less (key z) (key y))) [
    | inl g ↦ elim (Bool-cases (less (key z) (key x))) [
      | inl f ↦
          ap (insert key x) (insert_past y z zs g)
          ∙ (insert_past x z (insert key y zs) f
              ∙ (ap (λ l. z ∷ l) (insert-swap x y zs e)
                  ∙ sym (
                      ap (insert key y) (insert_past x z zs f)
                      ∙ insert_past y z (insert key x zs) g)))
      | inr f ↦
          ap (insert key x) (insert_past y z zs g)
          ∙ (insert_here x z (insert key y zs) f
              ∙ sym (
                  ap (insert key y) (insert_here x z zs f)
                  ∙ (insert_past y x (z ∷ zs) e ∙ ap (λ l. x ∷ l) (insert_past y z zs g))))
    ]
    | inr g ↦
        let f = before-not (key x) (key y) (key z) e g in
        ap (insert key x) (insert_here y z zs g)
        ∙ (insert_here x y (z ∷ zs) (less-asym (key x) (key y) e)
            ∙ sym (
                ap (insert key y) (insert_here x z zs f)
                ∙ (insert_past y x (z ∷ zs) e ∙ ap (λ l. x ∷ l) (insert_here y z zs g))))
  ]

  -- Two entries that are one wherever their keys are.
  insert_either :
      (x y : A) (zs : List A)
      → (key x ≡ key y → x ≡ y)
      → insert key x (insert key y zs) ≡ insert key y (insert key x zs)
  insert_either x y zs same = elim (Bool-cases (less (key x) (key y))) [
    | inl e ↦ insert-swap x y zs e
    | inr e ↦ elim (Bool-cases (less (key y) (key x))) [
      | inl f ↦ sym (insert-swap y x zs f)
      | inr f ↦
          let one = same (less-total (key x) (key y) e f) in
          ap (λ a. insert key a (insert key y zs)) one
          ∙ ap (λ a. insert key y (insert key a zs)) (sym one)
    ]
  ]

-- The members with one encoded path are one member.
abbrev pub OnePath : (Str → Str) → List SourceFile → Type 0
OnePath utf8 ms = (a b : SourceFile) → Memᴰ a ms → Memᴰ b ms → utf8 a.path ≡ utf8 b.path → a ≡ b

Memᴰ-Permᴰ : {a : SourceFile} {ms ns : List SourceFile} → Permᴰ ms ns → Memᴰ a ns → Memᴰ a ms
Memᴰ-Permᴰ Permᴰ.nil m = m
Memᴰ-Permᴰ (Permᴰ.cons e p) (Memᴰ.head h) = Memᴰ.head (h ∙ sym e)
Memᴰ-Permᴰ (Permᴰ.cons e p) (Memᴰ.tail m) = Memᴰ.tail (Memᴰ-Permᴰ p m)
Memᴰ-Permᴰ (Permᴰ.swap e f) (Memᴰ.head h) = Memᴰ.tail (Memᴰ.head (h ∙ sym f))
Memᴰ-Permᴰ (Permᴰ.swap e f) (Memᴰ.tail (Memᴰ.head h)) = Memᴰ.head (h ∙ sym e)
Memᴰ-Permᴰ (Permᴰ.swap e f) (Memᴰ.tail (Memᴰ.tail m)) = Memᴰ.tail (Memᴰ.tail m)
Memᴰ-Permᴰ (Permᴰ.trans p q) m = Memᴰ-Permᴰ p (Memᴰ-Permᴰ q m)

module _ (utf8 : Str → Str) (sha256 : Str → Str) where
  rows_of-Permᴰ :
      {ms ns : List SourceFile}
      → Permᴰ ms ns
      → OnePath utf8 ms
      → rows_of utf8 sha256 ms ≡ rows_of utf8 sha256 ns
  unfolding rows_of canonical_sort
  rows_of-Permᴰ Permᴰ.nil one = refl
  rows_of-Permᴰ (Permᴰ.cons {a} {b} {l₁} {l₂} e p) one =
      ap (λ x. insert (λ r. r.path) (row_of utf8 sha256 x) (rows_of utf8 sha256 l₁)) e
      ∙ ap (insert (λ r. r.path) (row_of utf8 sha256 b))
          (rows_of-Permᴰ p (λ x y m n. one x y (Memᴰ.tail m) (Memᴰ.tail n)))
  rows_of-Permᴰ (Permᴰ.swap {a} {b} {a'} {b'} {l} e f) one =
      insert_either (λ r. r.path) (row_of utf8 sha256 a) (row_of utf8 sha256 b)
        (rows_of utf8 sha256 l)
        (λ h. ap (row_of utf8 sha256) (one a b (Memᴰ.head refl) (Memᴰ.tail (Memᴰ.head refl)) h))
      ∙ (ap
            (λ x.
              insert (λ r. r.path) (row_of utf8 sha256 x)
                (insert (λ r. r.path) (row_of utf8 sha256 a) (rows_of utf8 sha256 l)))
            f
          ∙ ap
              (λ x.
                insert (λ r. r.path) (row_of utf8 sha256 a')
                  (insert (λ r. r.path) (row_of utf8 sha256 x) (rows_of utf8 sha256 l)))
              e)
  rows_of-Permᴰ (Permᴰ.trans p q) one =
      rows_of-Permᴰ p one ∙ rows_of-Permᴰ q (λ a b m n. one a b (Memᴰ-Permᴰ p m) (Memᴰ-Permᴰ p n))

  -- The order in which members are enumerated does not matter: where no two members have one encoded
  -- path, any rearrangement of them has the same manifest and the same digest.
  pub bundle_digest-Permᴰ :
      (ms ns : List SourceFile)
      → Permᴰ ms ns
      → OnePath utf8 ms
      → (manifest_bytes utf8 sha256 ms ≡ manifest_bytes utf8 sha256 ns)
        × (bundle_digest utf8 sha256 ms ≡ bundle_digest utf8 sha256 ns)
  unfolding manifest_bytes bundle_digest
  bundle_digest-Permᴰ ms ns p one =
      let e : manifest_bytes utf8 sha256 ms ≡ manifest_bytes utf8 sha256 ns =
        ap (λ rs. utf8 (text "okf-package-v1" ++ 10 ∷ []) ++ rows_bytes rs) (rows_of-Permᴰ p one) in
      (e, ap sha256 e)
