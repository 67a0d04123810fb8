-- ===== src/Ymap/Ends.antt =====
-- The functions of ydb/ymap.c that pop an entry, and those that look a key up.
use libydb.Prelude.{
  ℕ, ◌≡◌, refl, sym, ap, ◌∙◌, subst, true, false, inl, inr, Option-cases, Option, none, some, List,
  [], ◌∷◌, ◌++◌, ◌>>=◌, map, map-append, append-nil, arith, length, length-map, snoc-cases, ◌%◌,
  ◌^◌, Bool, ◌==◌,
}
use libydb.Order.{Ord}
use libydb.Keyed.{seek}
use libydb.Keyed.Split.{seek-some-Cut}
use libydb.Dict.{Entry, find}
use libydb.Ytree.Api.{ytree_create, ytree_search, ytree_size}
use libydb.Ytree.Api.Refine.{data_of, is_found, ytree_search_refines}
use libydb.Ylist.{update, ylist_create}
use libydb.Ylist.Ring.{unlinked, pop_front-unlinked, pop_back-unlinked}
use libydb.Ylist.Ends.{pop_front-empty, pop_back-empty}
use libydb.Ylist.Client.{ylist_create-IsRing}
use libydb.Ylist.Ring.{IsRing}
use libydb.Ytree.Client.{ytree_create-Represents}
use libydb.Ymap.{
  Ymap, ymap_create, pop_out, ymap_pop_front, ymap_pop_tail, ymap_search, ymap_exist, ymap_data,
  ymap_size,
}
use libydb.Ymap.Rows.{Row, cells, HasRows, unlinked-HasRows, IsRing-at}
use libydb.Ymap.Keys.{row_key, entry_of, delete-HasKeys}
use libydb.Ymap.Refine.{pair, entry_key, IsYmap, Maps, seek-pair}

module _ {ℓ} {A : Type ℓ} where
  -- The first and the last item of a list, and the list without it
  abbrev pub first : List A → Option A
  first [] = none
  first (a ∷ l) = some a

  abbrev pub behind_first : List A → List A
  behind_first [] = []
  behind_first (a ∷ l) = l

  abbrev pub last : List A → Option A
  last [] = none
  last (a ∷ []) = some a
  last (a ∷ b ∷ l) = last (b ∷ l)

  abbrev pub ahead_of_last : List A → List A
  ahead_of_last [] = []
  ahead_of_last (a ∷ []) = []
  ahead_of_last (a ∷ b ∷ l) = a ∷ ahead_of_last (b ∷ l)

  pub last-append :
      (l : List A) (a : A) → (last (l ++ (a ∷ [])) ≡ some a) × (ahead_of_last (l ++ (a ∷ [])) ≡ l)
  last-append [] a = (refl, refl)
  last-append (b ∷ []) a = (refl, refl)
  last-append (b ∷ c ∷ l) a = let (e, f) = last-append (c ∷ l) a in (e, ap (λ v. b ∷ v) f)

find_nothing {ℓ κ} :
    {K : Type ℓ} {D : Type κ} ⦃o : Ord K⦄ (q : K) (es : List (Entry K D))
    → es ≡ []
    → find q es ≡ none
unfolding find
find_nothing q es e = rw e refl

module _ {ℓ κ} {K : Type ℓ} {D : Type κ} ⦃o : Ord K⦄ where
  pop_out-IsYmap :
      (m : Ymap K D) (xs : List (Row K D)) (r : Row K D) (ys : List (Row K D))
      → IsYmap m (xs ++ (r ∷ ys))
      → (u : Ymap K D) × (pop_out m (unlinked m.list (cells xs) r.cell (cells ys)) (some r.imap)
          ≡ some (u, some (pair r)))
        × IsYmap u (xs ++ ys)
  unfolding pop_out
  pop_out-IsYmap m xs r ys h =
      let (ring, stand) = IsRing-at m.list m.imaps m.fresh xs r ys h.in_list in
      let (t, done, keys) = delete-HasKeys m.tree xs r ys h.in_tree in
      let same_imap : (r.imap == r.imap) ≡ true = ground arith in
      (
        record m {
          tree = t;
          list = unlinked m.list (cells xs) r.cell (cells ys);
          imaps = update m.imaps r.imap none;
        },
        rw (stand.1, done, same_imap) refl,
        record {
          in_list = unlinked-HasRows m.list m.imaps m.fresh xs r ys h.in_list;
          in_tree = keys;
        },
      )

  -- On a well-formed map ymap_pop_front uses allocated memory only. It takes the first entry out and
  -- hands its key and its data over, NULL from an empty map.
  pub ymap_pop_front_refines :
      (m : Ymap K D) (es : List (Entry K D))
      → Maps m es
      → (u : Ymap K D) × (ymap_pop_front m ≡ some (u, first es)) × Maps u (behind_first es)
  unfolding ymap_pop_front pop_out
  ymap_pop_front_refines m es ([], h, held) =
      rw (sym held, pop_front-empty m.list h.in_list.ring) (m, refl, ([], h, refl))
  ymap_pop_front_refines m es (r ∷ rows, h, held) =
      let (u, e, left) = pop_out-IsYmap m [] r rows h in
      let (ring, stand) = IsRing-at m.list m.imaps m.fresh [] r rows h.in_list in
      rw (sym held, pop_front-unlinked m.list r.cell (cells rows) ring, stand.0)
        (u, e, (rows, left, refl))

  -- On a well-formed map ymap_pop_tail uses allocated memory only. It takes the last entry out and
  -- hands its key and its data over, NULL from an empty map.
  pub ymap_pop_tail_refines :
      (m : Ymap K D) (es : List (Entry K D))
      → Maps m es
      → (u : Ymap K D) × (ymap_pop_tail m ≡ some (u, last es)) × Maps u (ahead_of_last es)
  unfolding ymap_pop_tail pop_out
  ymap_pop_tail_refines m es (rows, h, held) = elim (snoc-cases rows) [
    | inl e ↦
        let none_there : map pair rows ≡ [] = ap (map pair) e in
        let ring = subst (λ l. IsRing m.list (cells l)) e h.in_list.ring in
        rw (sym held, none_there, pop_back-empty m.list ring) (m, refl, (rows, h, none_there))
    | inr (xs, r, e) ↦
        let there : IsYmap m (xs ++ (r ∷ [])) = subst (IsYmap m) e h in
        let (u, popped, left) = pop_out-IsYmap m xs r [] there in
        let (ring, stand) = IsRing-at m.list m.imaps m.fresh xs r [] there.in_list in
        let es_snoc : es ≡ map pair xs ++ (pair r ∷ []) =
          sym held ∙ ap (map pair) e ∙ map-append pair xs (r ∷ []) in
        let (got, ahead) = last-append (map pair xs) (pair r) in
        rw (es_snoc, got, ahead, pop_back-unlinked m.list (cells xs) r.cell ring, stand.0)
          (u, popped, (xs, subst (IsYmap u) (append-nil xs) left, refl))
  ]

  -- A new map is well formed and has no entries.
  pub ymap_create-Maps : (key_free : Bool) → Maps {K = K} {D = D} (ymap_create key_free) []
  unfolding ymap_create seek ytree_create ylist_create
  ymap_create-Maps key_free =
      let (valid, none_there) = ytree_create-Represents key_free in
      (
        [],
        record {
          in_list = record { ring = ylist_create-IsRing; blank = refl; stand = tt; apart = tt };
          in_tree = record {
            valid = valid;
            finds = λ q. find_nothing q _ none_there;
            unique = tt;
            counted = ap length none_there;
          };
        },
        refl,
      )

  -- From a well-formed map: ymap_search and ymap_exist answer from its entries and read allocated
  -- memory only, and ymap_size is their number modulo 2 ^ 32.
  pub ymap_search_refines :
      (m : Ymap K D) (es : List (Entry K D)) (q : K)
      → Maps m es
      → (ymap_search m q ≡ some (data_of (seek entry_key q es)))
        × (ymap_exist m q ≡ is_found (seek entry_key q es))
        × (ymap_size m ≡ length es % 2 ^ 32)
  unfolding ymap_search ymap_exist ymap_size ytree_size ymap_data
  ymap_search_refines m es q (rows, h, held) =
      let (got, _) = ytree_search_refines m.tree q h.in_tree.valid in
      let found : ytree_search m.tree q ≡ (seek row_key q rows >>= λ r. some r.imap) =
        got ∙ ap data_of (h.in_tree.finds q) ∙ tagged (seek row_key q rows) in
      let count : ymap_size m ≡ length (map pair rows) % 2 ^ 32 =
        omega (arith, length-map pair rows, h.in_tree.counted, h.in_tree.valid.counted) in
      elim (Option-cases (seek row_key q rows)) [
        | inl e ↦
            let miss = found ∙ ap (λ (v : Option (Row K D)). v >>= λ r. some r.imap) e in
            rw (sym held, seek-pair q rows, e)
              (
                ap (ymap_data m) miss,
                ap (λ (v : Option ℕ). elim v [ none ↦ false | some i ↦ true ]) miss,
                count,
              )
        | inr (r, e) ↦
            let hit = found ∙ ap (λ (v : Option (Row K D)). v >>= λ s. some s.imap) e in
            let (ps, qs, cut, same_key, rest) = seek-some-Cut row_key q rows r e in
            let (ring, stand) =
              IsRing-at m.list m.imaps m.fresh ps r qs
                (subst (HasRows m.list m.imaps m.fresh) cut h.in_list) in
            rw (sym held, seek-pair q rows, e)
              (
                ap (ymap_data m) hit ∙ rw stand.1 refl,
                ap (λ (v : Option ℕ). elim v [ none ↦ false | some i ↦ true ]) hit,
                count,
              )
      ]
    where
      tagged : (r : Option (Row K D)) → data_of (entry_of r) ≡ (r >>= λ s. some s.imap)
      tagged none = refl
      tagged (some r) = refl
