-- ===== src/Http/Headers/Removal.antt =====
-- Which headers are passed on.
use outway.Base.{
  ℕ, ◌≡◌, refl, sym, ap, ◌∙◌, List, [], ◌∷◌, ◌++◌, Bool, false, ◌||◌, ◌==◌, if◌then◌else◌, text_eq,
  text_eq_sound, codes, map, All, Bool-cases, ==_cases, inl, inr,
}
use outway.Http.Headers.{
  Header, canonical, get_header, delete_header, delete_all, split_commas, connection_tokens,
  hop_headers, trim_space, remove_hop_headers,
}

-- One of the names, once they are canonical.
abbrev pub named : List (List ℕ) → List ℕ → Bool
named [] k = false
named (name ∷ names) k = text_eq k (canonical name) || named names k

abbrev pub without : List (List ℕ) → Header → Header
without names [] = []
without names ((k, vs) ∷ h) = if named names k then without names h else (k, vs) ∷ without names h

without_none : (h : Header) → without [] h ≡ h
without_none [] = refl
without_none ((k, vs) ∷ h) = ap (◌∷◌ (k, vs)) (without_none h)

without-delete :
    (name : List ℕ) (names : List (List ℕ)) (h : Header)
    → without names (delete_header name h) ≡ without (name ∷ names) h
unfolding delete_header
without-delete name names [] = refl
without-delete name names ((k, vs) ∷ h) = elim (Bool-cases (text_eq k (canonical name))) [
  | inl e ↦ rw e (without-delete name names h)
  | inr e ↦ elim (Bool-cases (named names k)) [
    | inl f ↦ rw (e, f) (without-delete name names h)
    | inr f ↦ rw (e, f) (ap (◌∷◌ (k, vs)) (without-delete name names h))
  ]
]

delete_all-without : (names : List (List ℕ)) (h : Header) → delete_all names h ≡ without names h
delete_all-without [] h = sym (without_none h)
delete_all-without (name ∷ names) h =
    delete_all-without names (delete_header name h) ∙ without-delete name names h

without-append :
    (names others : List (List ℕ)) (h : Header)
    → without others (without names h) ≡ without (names ++ others) h
without-append [] others h = ap (without others) (without_none h)
without-append (name ∷ names) others h =
    ap (without others) (sym (without-delete name names h))
    ∙ without-append names others (delete_header name h)
    ∙ without-delete name (names ++ others) h

-- The names that RFC 7230 and its predecessors make hop-by-hop, in canonical form.
abbrev pub hop_by_hop : List ℕ → Bool
hop_by_hop k =
    text_eq k (codes "Connection")
    || (text_eq k (codes "Proxy-Connection")
        || (text_eq k (codes "Keep-Alive")
            || (text_eq k (codes "Proxy-Authenticate")
                || (text_eq k (codes "Proxy-Authorization")
                    || (text_eq k (codes "Te")
                        || (text_eq k (codes "Trailer")
                            || (text_eq k (codes "Transfer-Encoding")
                                || text_eq k (codes "Upgrade"))))))))

-- The lines whose name is neither hop-by-hop nor one of the tokens.
abbrev pub end_to_end : List (List ℕ) → Header → Header
end_to_end tokens [] = []
end_to_end tokens ((k, vs) ∷ h) =
    if hop_by_hop k || named tokens k then end_to_end tokens h else (k, vs) ∷ end_to_end tokens h

-- A list of parts with a comma between each two, and no comma inside any; an empty text has none.
abbrev pub join_commas : List (List ℕ) → List ℕ
join_commas [] = []
join_commas (p ∷ []) = p
join_commas (p ∷ q ∷ ps) = p ++ 44 ∷ join_commas (q ∷ ps)

abbrev pub NoComma : List ℕ → Type 0
NoComma = All (λ c. (c == 44) ≡ false)

abbrev pub CommaList : List (List ℕ) → List ℕ → Type 0
CommaList [] s = s ≡ []
CommaList (p ∷ ps) s = (join_commas (p ∷ ps) ≡ s) × (text_eq s [] ≡ false) × All NoComma (p ∷ ps)

join-extend :
    (c : ℕ) (p : List ℕ) (ps : List (List ℕ))
    → join_commas ((c ∷ p) ∷ ps) ≡ c ∷ join_commas (p ∷ ps)
join-extend c p [] = refl
join-extend c p (q ∷ ps) = refl

-- Splitting at the commas gives a part at least.
split_commas_lem :
    (s : List ℕ)
    → (p : List ℕ) × (ps : List (List ℕ)) × (split_commas s ≡ p ∷ ps)
      × (join_commas (p ∷ ps) ≡ s)
      × All NoComma (p ∷ ps)
unfolding split_commas
split_commas_lem [] = ([], [], refl, refl, (tt, tt))
split_commas_lem (c ∷ s) =
    let (p, ps, e, joined, clean) = split_commas_lem s in
    elim (==_cases c 44) [
      | inl (f, comma) ↦ rw (f, e) ([], (p ∷ ps), refl, rw comma (ap (◌∷◌ 44) joined), (tt, clean))
      | inr (f, _) ↦
          rw (f, e)
            (c ∷ p, ps, refl, join-extend c p ps ∙ ap (◌∷◌ c) joined, ((f, clean.0), clean.1))
    ]

connection_tokens-CommaList :
    (h : Header) → CommaList (connection_tokens h) (get_header (codes "Connection") h)
unfolding connection_tokens
connection_tokens-CommaList h =
    let conn = get_header (codes "Connection") h in
    let (p, ps, e, joined, clean) = split_commas_lem conn in
    elim (Bool-cases (text_eq conn [])) [
      | inl f ↦ rw f (text_eq_sound conn [] f)
      | inr f ↦ rw (f, e) (joined, f, clean)
    ]

named-append :
    (names others : List (List ℕ)) (k : List ℕ)
    → named (names ++ others) k ≡ named names k || named others k
named-append [] others k = refl
named-append (name ∷ names) others k = elim (Bool-cases (text_eq k (canonical name))) [
  | inl e ↦ rw e refl
  | inr e ↦ rw e (named-append names others k)
]

named-hop_headers : (k : List ℕ) → named hop_headers k ≡ hop_by_hop k
unfolding canonical
named-hop_headers k = elim (Bool-cases (text_eq k (codes "Upgrade"))) [
  | inl e ↦ rw e refl
  | inr e ↦ rw e refl
]

without-end_to_end :
    (tokens : List (List ℕ)) (h : Header) → without (hop_headers ++ tokens) h ≡ end_to_end tokens h
without-end_to_end tokens [] = refl
without-end_to_end tokens ((k, vs) ∷ h) =
    let same : named (hop_headers ++ tokens) k ≡ hop_by_hop k || named tokens k =
      named-append hop_headers tokens k ∙ ap (λ b. b || named tokens k) (named-hop_headers k) in
    elim (Bool-cases (hop_by_hop k || named tokens k)) [
      | inl e ↦ rw (same ∙ e, e) (without-end_to_end tokens h)
      | inr e ↦ rw (same ∙ e, e) (ap (◌∷◌ (k, vs)) (without-end_to_end tokens h))
    ]

-- What is passed on is the header in its order without exactly the lines whose name is one of nine
-- (Connection, Proxy-Connection, Keep-Alive, Proxy-Authenticate, Proxy-Authorization, Te, Trailer,
-- Transfer-Encoding, Upgrade) or, made canonical, one that the value of the first Connection line
-- lists: the parts between its commas, trimmed of space. All of these lines go, and no other.
pub remove_hop_headers-end_to_end :
    (h : Header)
    → (parts : List (List ℕ)) × CommaList parts (get_header (codes "Connection") h)
      × (remove_hop_headers h ≡ end_to_end (map trim_space parts) h)
unfolding remove_hop_headers
remove_hop_headers-end_to_end h =
    let tokens = map trim_space (connection_tokens h) in
    (
      connection_tokens h,
      connection_tokens-CommaList h,
      ap (delete_all tokens) (delete_all-without hop_headers h)
          ∙ delete_all-without tokens (without hop_headers h)
          ∙ without-append hop_headers tokens h
          ∙ without-end_to_end tokens h,
    )
