-- ===== src/Ynode/Path/Scan.antt =====
-- ydb/ynode.c: the next delimiter of a path, behind the parts in quotes and brackets.
use libydb.Prelude.{
  ℕ, zero, suc, ◌==◌, ◌<◌, ◌≤◌, ◌≡◌, refl, sym, ap, ◌∙◌, subst, Bool, true, false, Option, none,
  some, List, [], ◌∷◌, ◌++◌, length, length-append, append_assoc, append-nil, All, Option-cases,
  inl, inr, arith,
}
use libydb.Ynode.Bytes.{Text}
use libydb.Ynode.Path.{
  get_pair_delimiter, is_delimiter, stops, Cut, find_byte, skip_ignored, next_token,
}

-- The quotes and brackets that hide delimiters
pub data Quote : Type 0 where
  single double brace bracket paren : Quote

abbrev pub opening : Quote → ℕ
opening single = b'\''
opening double = b'"'
opening brace = b'{'
opening bracket = b'['
opening paren = b'('

abbrev pub closing : Quote → ℕ
closing single = b'\''
closing double = b'"'
closing brace = b'}'
closing bracket = b']'
closing paren = b')'

abbrev pub specials : List ℕ
specials = b'/' ∷ b'=' ∷ b'\'' ∷ b'"' ∷ b'{' ∷ b'[' ∷ b'(' ∷ []

-- A byte that is none of the delimiters, quotes and brackets; or a part from a quote or bracket to the
-- one that closes it.
pub data Piece : Type 0 where
  plain : ℕ → Piece
  quoted : Quote → Text → Piece

abbrev pub IsPiece : Piece → Type 0
IsPiece (plain c) = All (λ special. (c == special) ≡ false) specials
IsPiece (quoted q body) = All (λ b. (b == closing q) ≡ false) body

abbrev pub bytes : List Piece → Text
bytes [] = []
bytes (plain c ∷ ps) = c ∷ bytes ps
bytes (quoted q body ∷ ps) = opening q ∷ (body ++ (closing q ∷ bytes ps))

stops-plain : (c : ℕ) → IsPiece (plain c) → stops c ≡ false
unfolding stops is_delimiter
stops-plain c h = ground (arith, h)

opening_lem :
    (q : Quote)
    → (stops (opening q) ≡ true)
      × (is_delimiter (opening q) ≡ false)
      × (get_pair_delimiter (opening q) ≡ closing q)
unfolding stops is_delimiter get_pair_delimiter
opening_lem single = (refl, refl, refl)
opening_lem double = (refl, refl, refl)
opening_lem brace = (refl, refl, refl)
opening_lem bracket = (refl, refl, refl)
opening_lem paren = (refl, refl, refl)

-- next_token, with bytes that have been read before
seek : ℕ → Text → Text → Option (Option Cut)
unfolding find_byte skip_ignored
seek n p s = elim (find_byte stops s) [
  | none ↦ some none
  | some token ↦ skip_ignored n (record token { before = p ++ token.before })
]

find_byte_behind :
    (f : ℕ → Bool) (body : Text) (c : ℕ) (t : Text)
    → All (λ b. f b ≡ false) body
    → f c ≡ true
    → find_byte f (body ++ (c ∷ t)) ≡ some (record { before = body; at = c; after = t })
unfolding find_byte
find_byte_behind f [] c t h e = rw e refl
find_byte_behind f (b ∷ body) c t h e = rw (h.0, find_byte_behind f body c t h.1 e) refl

seek_plain :
    (n : ℕ) (p : Text) (c : ℕ) (s : Text)
    → stops c ≡ false
    → seek n p (c ∷ s) ≡ seek n (p ++ (c ∷ [])) s
unfolding seek find_byte
seek_plain n p c s h = elim (Option-cases (find_byte stops s)) [
  | inl e ↦ rw (seek, h, e) refl
  | inr (token, e) ↦
      rw (seek, h, e)
        (ap (λ b. skip_ignored n (record token { before = b }))
          (sym (append_assoc p (c ∷ []) token.before)))
]

around :
    (p : Text) (c : ℕ) (body : Text) (d : ℕ) (t : Text)
    → p ++ (c ∷ (body ++ (d ∷ t))) ≡ (p ++ (c ∷ (body ++ (d ∷ [])))) ++ t
around p c body d t =
    ap (λ q. p ++ (c ∷ q)) (sym (append_assoc body (d ∷ []) t))
    ∙ sym (append_assoc p (c ∷ (body ++ (d ∷ []))) t)

seek_quoted :
    (n : ℕ) (p : Text) (c close : ℕ) (body s : Text)
    → stops c ≡ true
    → is_delimiter c ≡ false
    → get_pair_delimiter c ≡ close
    → All (λ b. (b == close) ≡ false) body
    → seek (suc n) p (c ∷ (body ++ (close ∷ s))) ≡ seek n (p ++ (c ∷ (body ++ (close ∷ [])))) s
unfolding seek
seek_quoted n p c close body s start inner pair clean =
    let to_close =
      subst
        (λ d.
          find_byte (λ b. b == d) (body ++ (close ∷ s))
          ≡ some (record { before = body; at = close; after = s }))
        (sym pair) (find_byte_behind (λ b. b == close) body close s clean (ground arith)) in
    rw (seek, start, inner, to_close)
      (elim (Option-cases (find_byte stops s)) [
        | inl e ↦ rw (seek, e) refl
        | inr (next, e) ↦
            rw (seek, e)
              (ap (λ b. skip_ignored n (record next { before = b }))
                (ap (λ q. q ++ (c ∷ (body ++ (close ∷ next.before)))) (append-nil p)
                  ∙ around p c body close next.before))
      ])

is_delimiter-stops : (d : ℕ) → is_delimiter d ≡ true → stops d ≡ true
unfolding stops
is_delimiter-stops d e = rw e refl

-- With as much fuel as pieces, and more, pieces are read over.
seek_pieces :
    (ps : List Piece) (n : ℕ) (p rest : Text)
    → All IsPiece ps
    → length ps < n
    → (k : ℕ) × (seek n p (bytes ps ++ rest) ≡ seek (suc k) (p ++ bytes ps) rest)
seek_pieces ps zero p rest h l = (0, ground (arith, l))
seek_pieces [] (suc n) p rest h l = (n, ap (λ q. seek (suc n) q rest) (sym (append-nil p)))
seek_pieces (plain c ∷ ps) (suc n) p rest h l =
    let (k, more) = seek_pieces ps (suc n) (p ++ (c ∷ [])) rest h.1 (omega (arith, l)) in
    (
      k,
      seek_plain (suc n) p c (bytes ps ++ rest) (stops-plain c h.0)
          ∙ more
          ∙ ap (λ q. seek (suc k) q rest) (append_assoc p (c ∷ []) (bytes ps)),
    )
seek_pieces (quoted q body ∷ ps) (suc n) p rest h l =
    let c = opening q in
    let close = closing q in
    let (start, inner, pair) = opening_lem q in
    let (k, more) =
      seek_pieces ps n (p ++ (c ∷ (body ++ (close ∷ [])))) rest h.1 (omega (arith, l)) in
    (
      k,
      ap (λ s. seek (suc n) p (c ∷ s)) (append_assoc body (close ∷ bytes ps) rest)
          ∙ seek_quoted n p c close body (bytes ps ++ rest) start inner pair h.0
          ∙ more
          ∙ ap (λ q'. seek (suc k) q' rest) (sym (around p c body close (bytes ps))),
    )

next_token-seek : (n : ℕ) (path : Text) → next_token n path ≡ seek n [] path
unfolding next_token seek
next_token-seek n path = refl

pub length-bytes : (ps : List Piece) → length ps ≤ length (bytes ps)
length-bytes [] = omega arith
length-bytes (plain c ∷ ps) = omega (arith, length-bytes ps)
length-bytes (quoted q body ∷ ps) =
    omega (arith, length-bytes ps, length-append body (closing q ∷ bytes ps))

-- The token behind pieces is the delimiter there, and NULL at the end of the path.
pub next_token-delimiter :
    (ps : List Piece) (n : ℕ) (d : ℕ) (t : Text)
    → All IsPiece ps
    → length ps < n
    → is_delimiter d ≡ true
    → next_token n (bytes ps ++ (d ∷ t))
      ≡ some (some (record { before = bytes ps; at = d; after = t }))
unfolding seek
next_token-delimiter ps n d t h l e =
    let (k, more) = seek_pieces ps n [] (d ∷ t) h l in
    next_token-seek n (bytes ps ++ (d ∷ t))
    ∙ more
    ∙ rw (seek, is_delimiter-stops d e, e)
        (ap (λ q. some (some (record { before = q; at = d; after = t }))) (append-nil (bytes ps)))

pub next_token-end :
    (ps : List Piece) (n : ℕ) → All IsPiece ps → length ps < n → next_token n (bytes ps) ≡ some none
unfolding seek
next_token-end ps n h l =
    let (k, more) = seek_pieces ps n [] [] h l in
    next_token-seek n (bytes ps) ∙ ap (λ q. seek n [] q) (sym (append-nil (bytes ps))) ∙ more
