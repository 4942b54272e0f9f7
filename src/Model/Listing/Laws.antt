-- ===== src/Model/Listing/Laws.antt =====
-- What a page of a listing holds.
use Prim.Native.Nat.{min}
use easymail.Base.{
  ℕ, zero, suc, ◌-◌, ◌≤◌, ◌≡◌, refl, ap, sym, subst, ◌∙◌, Bool, true, not, Option, none, some, List,
  [], ◌∷◌, Bytes, keep, length, take, drop, length-take, arith, Bool-cases, inl, inr, All,
}
use easymail.Base.Int.{pos}
use easymail.Model.Listing.{Finder, SameRows, IsFinder, IsCount, with_total, order_of, page_of}

module _ {R : Type 0} where
  keep_all : (xs : List R) → keep (λ x. true) xs ≡ xs
  keep_all [] = refl
  keep_all (x ∷ xs) = ap (λ l. x ∷ l) (keep_all xs)

  pub SameRows-length : (xs ys : List R) → SameRows xs ys → length xs ≡ length ys
  SameRows-length xs ys h = ap length (sym (keep_all xs)) ∙ h (λ x. true) ∙ ap length (keep_all ys)

  -- A part of a list passes a test at most as often.
  length-keep-take :
      (q : R → Bool) (n : ℕ) (xs : List R) → length (keep q (take n xs)) ≤ length (keep q xs)
  length-keep-take q zero xs = omega arith
  length-keep-take q (suc n) [] = omega arith
  length-keep-take q (suc n) (x ∷ xs) = ground (arith, length-keep-take q n xs)

  length-keep-drop :
      (q : R → Bool) (n : ℕ) (xs : List R) → length (keep q (drop n xs)) ≤ length (keep q xs)
  length-keep-drop q zero xs = omega arith
  length-keep-drop q (suc n) [] = omega arith
  length-keep-drop q (suc n) (x ∷ xs) = ground (arith, length-keep-drop q n xs)

  keep-fails : (p : R → Bool) (t : List R) → length (keep (λ x. not (p x)) (keep p t)) ≡ 0
  keep-fails p [] = refl
  keep-fails p (x ∷ t) = ground (arith, keep-fails p t)

  pub All-passes :
      (p : R → Bool) (xs : List R)
      → length (keep (λ x. not (p x)) xs) ≡ 0
      → All (λ x. p x ≡ true) xs
  All-passes p [] h = tt
  All-passes p (x ∷ xs) h = elim (Bool-cases (p x)) [
    | inl e ↦ (e, All-passes p xs (ground (arith, h, e)))
    | inr e ↦ absurd (ground (arith, h, e))
  ]

  length-drop : (n : ℕ) (xs : List R) → length (drop n xs) ≡ length xs - n
  length-drop zero xs = omega arith
  length-drop (suc n) [] = omega arith
  length-drop (suc n) (x ∷ xs) = omega (arith, length-drop n xs)

  length-keep-keep : (p q : R → Bool) (t : List R) → length (keep q (keep p t)) ≤ length (keep q t)
  length-keep-keep p q [] = omega arith
  length-keep-keep p q (x ∷ t) = ground (arith, length-keep-keep p q t)

  -- A page: the total, as many rows as are left behind the offset, up to the limit, all of them
  -- passing the test, and none more often than in the table.
  pub record IsPage (p : R → Bool) (k n : ℕ) (t : List R) (total : ℕ) (rs : List R) : Type 0 where
    pub whole : total ≡ length (keep p t)
    pub size : length rs ≡ min n (total - k)
    pub passing : All (λ r. p r ≡ true) rs
    pub within : (q : R → Bool) → length (keep q rs) ≤ length (keep q t)

  cut-IsPage :
      (p : R → Bool) (k n : ℕ) (t all : List R)
      → SameRows all (keep p t)
      → IsPage p k (suc n) t (length (keep p t)) (take (suc n) (drop k all))
  cut-IsPage p k n t all h = record {
    whole = refl;
    size = omega (
      arith,
      length-take (suc n) (drop k all),
      length-drop k all,
      SameRows-length all (keep p t) h,
    );
    passing =
        All-passes p (take (suc n) (drop k all))
          (omega (arith, part (λ x. not (p x)), h (λ x. not (p x)), keep-fails p t));
    within = λ q. omega (arith, part q, h q, length-keep-keep p q t);
  }
    where
      part : (q : R → Bool) → length (keep q (take (suc n) (drop k all))) ≤ length (keep q all)
      part q = omega (arith, length-keep-take q (suc n) (drop k all), length-keep-drop q k all)

  with_total_lem :
      (n total : ℕ) (o : Option (List R)) (rs : List R)
      → with_total n o ≡ some (total, rs)
      → (n ≡ total) × (o ≡ some rs)
  with_total_lem n total none rs e = absurd (cc e)
  with_total_lem n total (some xs) rs e =
      let pair : Path (ℕ × List R) (n, xs) (total, rs) = cc e in
      (ap (λ x. x.0) pair, ap (λ x. some (x.1)) pair)

module _ {R : Type 0} (count : (R → Bool) → List R → Option ℕ) (find : Finder R)
    (counts : IsCount count) (finds : IsFinder find) where
  IsPage-counted :
      (p : R → Bool) (order : Option Bytes) (k n : ℕ) (t : List R) (total : ℕ) (rs : List R)
      (o : Option ℕ)
      → count p t ≡ o
      → elim o [
        | none ↦ none
        | some m ↦ with_total m (
            find
              (record {
                rows = p;
                order = order;
                offset = some (pos k);
                limit = some (pos (suc n));
              })
              t)
      ]
        ≡ some (total, rs)
      → IsPage p k (suc n) t total rs
  IsPage-counted p order k n t total rs none c e = absurd (cc e)
  IsPage-counted p order k n t total rs (some m) c e =
      let (same_total, found) = with_total_lem m total _ rs e in
      let (all, rows, cut) = finds.found_page p order k n t found in
      subst (λ m. IsPage p k (suc n) t m rs) (sym (counts.counted p t c) ∙ same_total)
        (subst (IsPage p k (suc n) t (length (keep p t))) (sym cut) (cut-IsPage p k n t all rows))

  -- A page that is asked for with an offset and a limit above 0, and returned, is one.
  pub page_of-IsPage :
      (p : R → Bool) (field dir : Bytes) (k n : ℕ) (t : List R) (total : ℕ) (rs : List R)
      → page_of count find p field dir (pos k) (pos (suc n)) t ≡ some (total, rs)
      → IsPage p k (suc n) t total rs
  unfolding page_of
  page_of-IsPage p field dir k n t total rs e =
      IsPage-counted p (order_of field dir) k n t total rs (count p t) refl e
