-- ===== src/Ylist/Chain.antt =====
-- Links of the list of ydb/ylist.c: a run of cells, and what linking or unlinking a cell does to it.
use libydb.Prelude.{
  ℕ, ◌≡◌, ◌≢◌, refl, List, [], ◌∷◌, ◌++◌, All, arith, ◌∙◌, sym, All-without, All-with, All-at, Bool,
  true, map, ap₂,
}
use libydb.Ylist.{update}

pub update-same {ℓ} : {A : Type ℓ} (f : ℕ → A) (a : ℕ) (v : A) → update f a v a ≡ v
unfolding update
update-same f a v = ground arith

pub update-other {ℓ} :
    {A : Type ℓ} (f : ℕ → A) (a : ℕ) (v : A) (x : ℕ) → x ≢ a → update f a v x ≡ f x
unfolding update
update-other f a v x h = ground arith

-- `a` is none of the cells.
abbrev pub IsFresh : ℕ → List ℕ → Type 0
IsFresh a cs = All (λ x. x ≢ a) cs

abbrev pub IsDistinct : List ℕ → Type 0
IsDistinct [] = Unit
IsDistinct (a ∷ cs) = IsFresh a cs × IsDistinct cs

-- The pointers lead from `s` through the cells to `z`, and back.
abbrev pub IsChain : (ℕ → ℕ) → (ℕ → ℕ) → ℕ → List ℕ → ℕ → Type 0
IsChain n p s [] z = (n s ≡ z) × (p z ≡ s)
IsChain n p s (a ∷ cs) z = (n s ≡ a) × (p a ≡ s) × IsChain n p a cs z

abbrev pub last_of : ℕ → List ℕ → ℕ
last_of s [] = s
last_of s (a ∷ cs) = last_of a cs

abbrev pub first_of : List ℕ → ℕ → ℕ
first_of [] z = z
first_of (a ∷ cs) z = a

pub IsChain-last :
    (n p : ℕ → ℕ) (s : ℕ) (xs ys : List ℕ) (z : ℕ)
    → IsChain n p s (xs ++ ys) z
    → (n (last_of s xs) ≡ first_of ys z) × (p (first_of ys z) ≡ last_of s xs)
IsChain-last n p s [] [] z c = c
IsChain-last n p s [] (y ∷ ys) z c = (c.0, c.1)
IsChain-last n p s (x ∷ xs) ys z c = IsChain-last n p x xs ys z c.2

-- Writes outside of a chain.
pub IsChain-update_next :
    (n p : ℕ → ℕ) (s : ℕ) (cs : List ℕ) (z : ℕ) (a v : ℕ)
    → s ≢ a
    → IsFresh a cs
    → IsChain n p s cs z
    → IsChain (update n a v) p s cs z
IsChain-update_next n p s [] z a v h f c = rw (update-other n a v s h) c
IsChain-update_next n p s (x ∷ cs) z a v h f c =
    (update-other n a v s h ∙ c.0, c.1, IsChain-update_next n p x cs z a v f.0 f.1 c.2)

pub IsChain-update_prev :
    (n p : ℕ → ℕ) (s : ℕ) (cs : List ℕ) (z : ℕ) (a v : ℕ)
    → z ≢ a
    → IsFresh a cs
    → IsChain n p s cs z
    → IsChain n (update p a v) s cs z
IsChain-update_prev n p s [] z a v h f c = (c.0, update-other p a v z h ∙ c.1)
IsChain-update_prev n p s (x ∷ cs) z a v h f c =
    (c.0, update-other p a v x f.0 ∙ c.1, IsChain-update_prev n p x cs z a v h f.1 c.2)

-- The cells are different from each other and from both ends.
abbrev pub IsApart : ℕ → List ℕ → ℕ → Type 0
IsApart s cs z = IsFresh s cs × IsFresh z cs × IsDistinct cs

IsFresh-last : (s x : ℕ) (xs ys : List ℕ) → IsFresh s (x ∷ (xs ++ ys)) → s ≢ last_of x xs
IsFresh-last s x [] ys f e = f.0 (sym e)
IsFresh-last s x (y ∷ xs) ys f e = IsFresh-last s y xs ys f.1 e

IsFresh-first : (x : ℕ) (xs ys : List ℕ) (z : ℕ) → IsFresh x (xs ++ ys) → z ≢ x → x ≢ first_of ys z
IsFresh-first x [] [] z f h e = h (sym e)
IsFresh-first x [] (y ∷ ys) z f h e = f.0 (sym e)
IsFresh-first x (w ∷ xs) ys z f h e = IsFresh-first x xs ys z f.1 h e

-- A new cell `a` between the parts of a chain: its links, and then those of its neighbours.
pub IsChain-link :
    (n p : ℕ → ℕ) (s : ℕ) (xs ys : List ℕ) (z a : ℕ)
    → s ≢ a
    → z ≢ a
    → IsFresh a (xs ++ ys)
    → IsApart s (xs ++ ys) z
    → IsChain n p s (xs ++ ys) z
    → IsChain
        (update (update n a (first_of ys z)) (last_of s xs) a)
        (update (update p a (last_of s xs)) (first_of ys z) a)
        s
        (xs ++ (a ∷ ys))
        z
IsChain-link n p s [] [] z a sa za f d c = (
  update-same _ s a,
  update-other _ z a a (λ e. za (sym e)) ∙ update-same p a s,
  (update-other _ s a a (λ e. sa (sym e)) ∙ update-same n a z, update-same _ z a),
)
IsChain-link n p s [] (y ∷ ys) z a sa za f d c = (
  update-same _ s a,
  update-other _ y a a (λ e. f.0 (sym e)) ∙ update-same p a s,
  (
    update-other _ s a a (λ e. sa (sym e)) ∙ update-same n a y,
    update-same _ y a,
    IsChain-update_next _ _ y ys z s a d.0.0 d.0.1 (
        IsChain-update_next _ _ y ys z a y f.0 f.1 (
          IsChain-update_prev _ _ y ys z y a (λ e. d.1.0 (sym e)) d.2.0
            (IsChain-update_prev _ _ y ys z a s za f.1 c.2))),
  ),
)
IsChain-link n p s (x ∷ xs) ys z a sa za f d c = (
  update-other _ _ a s (IsFresh-last s x xs ys d.0) ∙ update-other n a _ s sa ∙ c.0,
  update-other _ _ a x (IsFresh-first x xs ys z d.2.0 (λ e. d.1.0 (sym e)))
      ∙ update-other p a _ x f.0
      ∙ c.1,
  IsChain-link n p x xs ys z a f.0 za f.1 (d.2.0, d.1.1, d.2.1) c.2,
)

-- The cell `a` is taken out: its neighbours are linked.
pub IsChain-unlink :
    (n p : ℕ → ℕ) (s : ℕ) (xs : List ℕ) (a : ℕ) (ys : List ℕ) (z : ℕ)
    → IsApart s (xs ++ (a ∷ ys)) z
    → IsChain n p s (xs ++ (a ∷ ys)) z
    → IsChain
        (update n (last_of s xs) (first_of ys z))
        (update p (first_of ys z) (last_of s xs))
        s
        (xs ++ ys)
        z
IsChain-unlink n p s [] a [] z d c = (update-same n s z, update-same p z s)
IsChain-unlink n p s [] a (y ∷ ys) z d c = (
  update-same n s y,
  update-same p y s,
  IsChain-update_next _ _ y ys z s y d.0.1.0 d.0.1.1
      (IsChain-update_prev _ _ y ys z y s (λ e. d.1.1.0 (sym e)) d.2.1.0 c.2.2),
)
IsChain-unlink n p s (x ∷ xs) a ys z d c = (
  update-other n _ _ s (IsFresh-last s x xs (a ∷ ys) d.0) ∙ c.0,
  update-other p _ _ x (IsFresh-first x xs ys z (All-without _ xs a ys d.2.0) (λ e. d.1.0 (sym e)))
      ∙ c.1,
  IsChain-unlink n p x xs a ys z (d.2.0, d.1.1, d.2.1) c.2,
)

IsDistinct-without :
    (xs : List ℕ) (a : ℕ) (ys : List ℕ) → IsDistinct (xs ++ (a ∷ ys)) → IsDistinct (xs ++ ys)
IsDistinct-without [] a ys d = d.1
IsDistinct-without (x ∷ xs) a ys d = (All-without _ xs a ys d.0, IsDistinct-without xs a ys d.1)

IsDistinct-with :
    (xs : List ℕ) (a : ℕ) (ys : List ℕ)
    → IsFresh a (xs ++ ys)
    → IsDistinct (xs ++ ys)
    → IsDistinct (xs ++ (a ∷ ys))
IsDistinct-with [] a ys f d = (f, d)
IsDistinct-with (x ∷ xs) a ys f d =
    (All-with _ xs a ys (λ e. f.0 (sym e)) d.0, IsDistinct-with xs a ys f.1 d.1)

pub IsApart-without :
    (s : ℕ) (xs : List ℕ) (a : ℕ) (ys : List ℕ) (z : ℕ)
    → IsApart s (xs ++ (a ∷ ys)) z
    → IsApart s (xs ++ ys) z
IsApart-without s xs a ys z d =
    (All-without _ xs a ys d.0, All-without _ xs a ys d.1, IsDistinct-without xs a ys d.2)

pub IsApart-with :
    (s : ℕ) (xs : List ℕ) (a : ℕ) (ys : List ℕ) (z : ℕ)
    → a ≢ s
    → a ≢ z
    → IsFresh a (xs ++ ys)
    → IsApart s (xs ++ ys) z
    → IsApart s (xs ++ (a ∷ ys)) z
IsApart-with s xs a ys z hs hz f d =
    (All-with _ xs a ys hs d.0, All-with _ xs a ys hz d.1, IsDistinct-with xs a ys f d.2)

-- Where an item stands among distinct ones, the others differ from it.
pub IsDistinct-IsFresh :
    (xs : List ℕ) (a : ℕ) (ys : List ℕ) → IsDistinct (xs ++ (a ∷ ys)) → IsFresh a (xs ++ ys)
IsDistinct-IsFresh [] a ys d = d.0
IsDistinct-IsFresh (x ∷ xs) a ys d =
    ((λ e. All-at _ xs a ys d.0 (sym e)), IsDistinct-IsFresh xs a ys d.1)

-- A write at none of the cells changes no value at them.
pub map-update {ℓ} :
    {A : Type ℓ} (f : ℕ → A) (a : ℕ) (v : A) (cs : List ℕ)
    → IsFresh a cs
    → map (update f a v) cs ≡ map f cs
map-update f a v [] h = refl
map-update f a v (c ∷ cs) h =
    ap₂ (λ x l. x ∷ l) (update-other f a v c h.0) (map-update f a v cs h.1)

pub All-update :
    (f : ℕ → Bool) (a : ℕ) (v : Bool) (cs : List ℕ)
    → IsFresh a cs
    → All (λ c. f c ≡ true) cs
    → All (λ c. update f a v c ≡ true) cs
All-update f a v [] h k = tt
All-update f a v (c ∷ cs) h k = (update-other f a v c h.0 ∙ k.0, All-update f a v cs h.1 k.1)

pub All-first : (P : ℕ → Type 0) (cs : List ℕ) (z : ℕ) → P z → All P cs → P (first_of cs z)
All-first P [] z p h = p
All-first P (c ∷ cs) z p h = h.0

pub All-last : (P : ℕ → Type 0) (s : ℕ) (cs : List ℕ) → P s → All P cs → P (last_of s cs)
All-last P s [] p h = p
All-last P s (c ∷ cs) p h = All-last P c cs h.0 h.1

pub last_of-append : (s : ℕ) (xs : List ℕ) (a : ℕ) → last_of s (xs ++ (a ∷ [])) ≡ a
last_of-append s [] a = refl
last_of-append s (x ∷ xs) a = last_of-append x xs a

-- A cell is not the one before it.
pub IsDistinct-last :
    (s : ℕ) (xs : List ℕ) (a : ℕ) (ys : List ℕ) → IsApart s (xs ++ (a ∷ ys)) s → a ≢ last_of s xs
IsDistinct-last s xs a ys d e =
    All-last (λ c. a ≢ c) s xs (All-at _ xs a ys d.0) (flip xs (IsDistinct-IsFresh xs a ys d.2)) e
  where
    flip : (us : List ℕ) → IsFresh a (us ++ ys) → All (λ c. a ≢ c) us
    flip [] f = tt
    flip (u ∷ us) f = ((λ h. f.0 (sym h)), flip us f.1)
