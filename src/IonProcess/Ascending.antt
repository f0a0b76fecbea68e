-- ===== src/IonProcess/Ascending.antt =====
-- Lists of numbers that grow, as the AsyncResults of src/pyon/ion/process.py do in its queue.
use scioncc.Prelude.{ℕ, ◌<◌, List, [], ◌∷◌, ◌++◌, In, inl, inr, arith}

abbrev pub All : (ℕ → Type 0) → List ℕ → Type 0
All P [] = Unit {0}
All P (x ∷ xs) = P x × All P xs

-- Each number is smaller than those after it.
abbrev pub IsAscending : List ℕ → Type 0
IsAscending [] = Unit {0}
IsAscending (x ∷ xs) = All (λ y. x < y) xs × IsAscending xs

pub All-snoc : (P : ℕ → Type 0) (xs : List ℕ) (n : ℕ) → All P xs → P n → All P (xs ++ n ∷ [])
All-snoc P [] n h p = (p, tt)
All-snoc P (x ∷ xs) n (a, h) p = (a, All-snoc P xs n h p)

pub All-drop : (P : ℕ → Type 0) (xs ys : List ℕ) (y : ℕ) → All P (xs ++ y ∷ ys) → All P (xs ++ ys)
All-drop P [] ys y h = h.1
All-drop P (x ∷ xs) ys y (a, h) = (a, All-drop P xs ys y h)

pub All-In : (P : ℕ → Type 0) (xs : List ℕ) (y : ℕ) → All P xs → In y xs → P y
All-In P [] y h i = absurd i
All-In P (x ∷ xs) y (a, h) (inl e) = rw e a
All-In P (x ∷ xs) y (a, h) (inr i) = All-In P xs y h i

pub IsAscending-snoc :
    (xs : List ℕ) (n : ℕ) → IsAscending xs → All (λ x. x < n) xs → IsAscending (xs ++ n ∷ [])
IsAscending-snoc [] n h b = (tt, tt)
IsAscending-snoc (x ∷ xs) n (a, h) (l, b) =
    (All-snoc (λ y. x < y) xs n a l, IsAscending-snoc xs n h b)

pub IsAscending-drop :
    (xs ys : List ℕ) (y : ℕ) → IsAscending (xs ++ y ∷ ys) → IsAscending (xs ++ ys)
IsAscending-drop [] ys y h = h.1
IsAscending-drop (x ∷ xs) ys y (a, h) =
    (All-drop (λ z. x < z) xs ys y a, IsAscending-drop xs ys y h)

pub All-left : (P : ℕ → Type 0) (xs ys : List ℕ) → All P (xs ++ ys) → All P ys
All-left P [] ys h = h
All-left P (x ∷ xs) ys (a, h) = All-left P xs ys h

-- What stands in the second part does not stand in the first.
pub IsAscending-disjoint : (xs ys : List ℕ) (y : ℕ) → IsAscending (xs ++ ys) → In y ys → ¬ In y xs
IsAscending-disjoint [] ys y h i j = j
IsAscending-disjoint (x ∷ xs) ys y (a, h) i (inl e) =
    let p : x < y = All-In (λ z. x < z) ys y (All-left (λ z. x < z) xs ys a) i in omega arith
IsAscending-disjoint (x ∷ xs) ys y (a, h) i (inr j) = IsAscending-disjoint xs ys y h i j

pub All-map : (P Q : ℕ → Type 0) → ((x : ℕ) → P x → Q x) → (xs : List ℕ) → All P xs → All Q xs
All-map P Q f [] h = tt
All-map P Q f (x ∷ xs) (a, h) = (f x a, All-map P Q f xs h)
