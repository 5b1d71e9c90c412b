-- ===== src/Config/Fresh.antt =====
-- Texts that are new to a set and to each other: what a loop that inserts each one into a set, and
-- complains of one that is there, lets through.
use rustygate.Prelude.{
  String, ◌≡◌, ◌≢◌, refl, ◌↔◌, false, ◌||◌, List, [], ◌∷◌, ◌++◌, arith, All, contains, str_eq_iff,
}

abbrev pub Fresh : List String → List String → Type 0
Fresh seen [] = Unit
Fresh seen (x ∷ xs) = (contains seen x ≡ false) × Fresh (x ∷ seen) xs

-- The set after the loop.
abbrev pub push_all : List String → List String → List String
push_all [] seen = seen
push_all (x ∷ xs) seen = push_all xs (x ∷ seen)

pub Fresh-append_iff :
    (seen xs ys : List String)
    → Fresh seen (xs ++ ys) ↔ (Fresh seen xs × Fresh (push_all xs seen) ys)
Fresh-append_iff seen [] ys = ((λ h. (tt, h)), (λ h. h.1))
Fresh-append_iff seen (x ∷ xs) ys =
    let ih = Fresh-append_iff (x ∷ seen) xs ys in
    ((λ h. ((h.0, (ih.0 h.1).0), (ih.0 h.1).1)), (λ h. (h.0.0, ih.1 (h.0.1, h.1))))

pub push_all-append :
    (xs ys seen : List String) → push_all (xs ++ ys) seen ≡ push_all ys (push_all xs seen)
push_all-append [] ys seen = refl
push_all-append (x ∷ xs) ys seen = push_all-append xs ys (x ∷ seen)

pub contains-push_all :
    (xs seen : List String) (t : String)
    → contains (push_all xs seen) t ≡ (contains xs t || contains seen t)
unfolding contains
contains-push_all [] seen t = refl
contains-push_all (x ∷ xs) seen t = ground (arith, contains-push_all xs (x ∷ seen) t)

pub contains-append :
    (xs ys : List String) (t : String) → contains (xs ++ ys) t ≡ (contains xs t || contains ys t)
unfolding contains
contains-append [] ys t = refl
contains-append (x ∷ xs) ys t = ground (arith, contains-append xs ys t)

-- No two of the texts are the same.
abbrev pub AreDistinct : List String → Type 0
AreDistinct [] = Unit
AreDistinct (x ∷ xs) = All (λ y. x ≢ y) xs × AreDistinct xs

none_of_contains :
    (seen : List String) (x y : String)
    → (contains (x ∷ seen) y ≡ false) ↔ ((x ≢ y) × (contains seen y ≡ false))
unfolding contains
none_of_contains seen x y = ground (arith, str_eq_iff x y)

Fresh-cons :
    (seen : List String) (x : String) (ys : List String)
    → All (λ y. contains (x ∷ seen) y ≡ false) ys
      ↔ (All (λ y. x ≢ y) ys × All (λ y. contains seen y ≡ false) ys)
Fresh-cons seen x [] = ((λ h. (tt, tt)), (λ h. tt))
Fresh-cons seen x (y ∷ ys) =
    let ih = Fresh-cons seen x ys in
    let here = none_of_contains seen x y in
    (
      (λ h. (((here.0 h.0).0, (ih.0 h.1).0), ((here.0 h.0).1, (ih.0 h.1).1))),
      (λ h. (here.1 (h.0.0, h.1.0), ih.1 (h.0.1, h.1.1))),
    )

pub Fresh-iff :
    (seen xs : List String)
    → Fresh seen xs ↔ (AreDistinct xs × All (λ x. contains seen x ≡ false) xs)
Fresh-iff seen [] = ((λ h. (tt, tt)), (λ h. tt))
Fresh-iff seen (x ∷ xs) =
    let ih = Fresh-iff (x ∷ seen) xs in
    let rest = Fresh-cons seen x xs in
    (
      (λ h. let (d, a) = ih.0 h.1 in let (e, f) = rest.0 a in ((e, d), (h.0, f))),
      (λ h. (h.1.0, ih.1 (h.0.1, rest.1 (h.0.0, h.1.1)))),
    )

All-nothing : (xs : List String) → All (λ x. contains [] x ≡ false) xs
unfolding contains
All-nothing [] = tt
All-nothing (x ∷ xs) = (refl, All-nothing xs)

pub Fresh-nil_iff : (xs : List String) → Fresh [] xs ↔ AreDistinct xs
Fresh-nil_iff xs = let k = Fresh-iff [] xs in ((λ h. (k.0 h).0), (λ h. k.1 (h, All-nothing xs)))

pub append-nil_iff : (xs ys : List String) → (xs ++ ys ≡ []) ↔ ((xs ≡ []) × (ys ≡ []))
append-nil_iff [] ys = ((λ h. (refl, h)), (λ h. h.1))
append-nil_iff (x ∷ xs) ys = ((λ h. cc), (λ h. cc))

pub append4-nil_iff :
    (xs ys zs ws : List String)
    → (xs ++ ys ++ zs ++ ws ≡ []) ↔ ((xs ≡ []) × ((ys ≡ []) × ((zs ≡ []) × (ws ≡ []))))
append4-nil_iff xs ys zs ws =
    ground (
      arith,
      append-nil_iff (xs ++ ys ++ zs) ws,
      append-nil_iff (xs ++ ys) zs,
      append-nil_iff xs ys,
    )
