-- ===== src/Ytree/Entries/Rebalance.antt =====
-- Neither loop of ydb/ytree.c that balances a tree changes its entries.
use libydb.Prelude.{
  ℤ, List, [], ◌∷◌, ◌≡◌, refl, append_assoc, Ensures, Ensures->>=, ◌+ℤ◌, arith, sym, subst,
}
use libydb.Dict.{Entry}
use libydb.Ytree.{Tree, null, node, Ancestors, plug, root_of}
use libydb.Ytree.Rotate.{rotate_left, rotate_right, rotate_left_right, rotate_right_left}
use libydb.Ytree.Balance
use libydb.Ytree.Balance.{Round, done, climb}
use libydb.Ytree.Entries.{entries, entries-root_of}

module _ {ℓ κ} {K : Type ℓ} {D : Type κ} where
  entries-root_of_eq :
      (p : Ancestors K D) (t u : Tree K D)
      → entries t ≡ entries u
      → entries (root_of p t) ≡ entries (root_of p u)
  entries-root_of_eq p t u h = rw (entries-root_of p t, entries-root_of p u, h)

  -- The tree has the entries `es`.
  abbrev pub Holds : List (Entry K D) → Tree K D → Type (ℓ ⊔ κ)
  Holds es t = entries t ≡ es

  rotate_left-Holds : (t : Tree K D) → Ensures (Holds (entries t)) (rotate_left t)
  unfolding rotate_left
  rotate_left-Holds null = tt
  rotate_left-Holds (node l k x b null) = tt
  rotate_left-Holds (node l k x b (node rl rk rx rb rr)) = simp append_assoc

  rotate_right-Holds : (t : Tree K D) → Ensures (Holds (entries t)) (rotate_right t)
  unfolding rotate_right
  rotate_right-Holds null = tt
  rotate_right-Holds (node null k x b r) = tt
  rotate_right-Holds (node (node ll lk lx lb lr) k x b r) = simp append_assoc

  rotate_left_right-Holds : (t : Tree K D) → Ensures (Holds (entries t)) (rotate_left_right t)
  unfolding rotate_left_right
  rotate_left_right-Holds null = tt
  rotate_left_right-Holds (node null k x b r) = tt
  rotate_left_right-Holds (node (node ll lk lx lb null) k x b r) = tt
  rotate_left_right-Holds (node (node ll lk lx lb (node ml mk mx mb mr)) k x b r) =
      simp append_assoc

  rotate_right_left-Holds : (t : Tree K D) → Ensures (Holds (entries t)) (rotate_right_left t)
  unfolding rotate_right_left
  rotate_right_left-Holds null = tt
  rotate_right_left-Holds (node l k x b null) = tt
  rotate_right_left-Holds (node l k x b (node null rk rx rb rr)) = tt
  rotate_right_left-Holds (node l k x b (node (node ml mk mx mb mr) rk rx rb rr)) =
      simp append_assoc

  abbrev RoundHolds : List (Entry K D) → Round K D → Type (ℓ ⊔ κ)
  RoundHolds es (done t) = Holds es t
  RoundHolds es (climb t) = Holds es t

  insert_left_heavy-Holds :
      (n l : Tree K D) → Ensures (RoundHolds (entries n)) (Balance.insert_left_heavy n l)
  unfolding Balance.insert_left_heavy
  insert_left_heavy-Holds n null = tt
  insert_left_heavy-Holds n (node ll lk lx lb lr) =
      ground (arith, rotate_right-Holds n, rotate_left_right-Holds n)

  insert_right_heavy-Holds :
      (n r : Tree K D) → Ensures (RoundHolds (entries n)) (Balance.insert_right_heavy n r)
  unfolding Balance.insert_right_heavy
  insert_right_heavy-Holds n null = tt
  insert_right_heavy-Holds n (node rl rk rx rb rr) =
      ground (arith, rotate_left-Holds n, rotate_right_left-Holds n)

  insert_round-Holds :
      (t : Tree K D) (d : ℤ) → Ensures (RoundHolds (entries t)) (Balance.insert_round t d)
  unfolding Balance.insert_round
  insert_round-Holds null d = refl
  insert_round-Holds (node l k x b r) d =
      let n = node l k x (b +ℤ d) r in
      ground (arith, insert_left_heavy-Holds n l, insert_right_heavy-Holds n r)

  -- Tree_InsertBalance keeps the entries of the whole tree.
  pub insert_balance-Holds :
      (p : Ancestors K D) (t : Tree K D) (d : ℤ)
      → Ensures (Holds (entries (root_of p t))) (Balance.insert_balance p t d)
  unfolding Balance.insert_balance root_of
  insert_balance-Holds [] t d =
      Ensures->>= (Holds (entries t)) (Balance.insert_round t d) _ (insert_round-Holds t d)
        elim [ done n ↦ λ h. h | climb n ↦ λ h. h ]
  insert_balance-Holds (f ∷ p) t d =
      Ensures->>= (Holds (entries (root_of (f ∷ p) t))) (Balance.insert_round t d) _
        (insert_round-Holds t d)
        elim [
          | done n ↦ λ h. entries-root_of_eq (f ∷ p) n t h
          | climb n ↦ λ h.
              rw (entries-root_of_eq (f ∷ p) t n (sym h))
                (insert_balance-Holds p (plug f n) (Balance.insert_delta f))
        ]

  stop_at-Holds : (b : ℤ) (t : Tree K D) → Ensures (RoundHolds (entries t)) (Balance.stop_at b t)
  unfolding Balance.stop_at
  stop_at-Holds b null = tt
  stop_at-Holds b (node l k x c r) = ground arith

  delete_left_heavy-Holds :
      (n l : Tree K D) → Ensures (RoundHolds (entries n)) (Balance.delete_left_heavy n l)
  unfolding Balance.delete_left_heavy Balance.stop_at Balance.balance_of
  delete_left_heavy-Holds n null = tt
  delete_left_heavy-Holds n (node ll lk lx lb lr) =
      ground (arith, rotate_right-Holds n, rotate_left_right-Holds n)

  delete_right_heavy-Holds :
      (n r : Tree K D) → Ensures (RoundHolds (entries n)) (Balance.delete_right_heavy n r)
  unfolding Balance.delete_right_heavy Balance.stop_at Balance.balance_of
  delete_right_heavy-Holds n null = tt
  delete_right_heavy-Holds n (node rl rk rx rb rr) =
      ground (arith, rotate_left-Holds n, rotate_right_left-Holds n)

  delete_round-Holds :
      (t : Tree K D) (d : ℤ) → Ensures (RoundHolds (entries t)) (Balance.delete_round t d)
  unfolding Balance.delete_round
  delete_round-Holds null d = refl
  delete_round-Holds (node l k x b r) d =
      let n = node l k x (b +ℤ d) r in
      ground (arith, delete_left_heavy-Holds n l, delete_right_heavy-Holds n r)

  -- Tree_DeleteBalance keeps the entries of the whole tree.
  pub delete_balance-Holds :
      (p : Ancestors K D) (t : Tree K D) (d : ℤ)
      → Ensures (Holds (entries (root_of p t))) (Balance.delete_balance p t d)
  unfolding Balance.delete_balance root_of
  delete_balance-Holds [] t d =
      Ensures->>= (Holds (entries t)) (Balance.delete_round t d) _ (delete_round-Holds t d)
        elim [ done n ↦ λ h. h | climb n ↦ λ h. h ]
  delete_balance-Holds (f ∷ p) t d =
      Ensures->>= (Holds (entries (root_of (f ∷ p) t))) (Balance.delete_round t d) _
        (delete_round-Holds t d)
        elim [
          | done n ↦ λ h. entries-root_of_eq (f ∷ p) n t h
          | climb n ↦ λ h.
              rw (entries-root_of_eq (f ∷ p) t n (sym h))
                (delete_balance-Holds p (plug f n) (Balance.delete_delta f))
        ]

  -- The same, with the entries of the whole tree computed.
  pub delete_balance-Holds_eq :
      (p : Ancestors K D) (t : Tree K D) (d : ℤ) (es : List (Entry K D))
      → entries (root_of p t) ≡ es
      → Ensures (Holds es) (Balance.delete_balance p t d)
  delete_balance-Holds_eq p t d es e =
      subst (λ us. Ensures (Holds us) (Balance.delete_balance p t d)) e (delete_balance-Holds p t d)
