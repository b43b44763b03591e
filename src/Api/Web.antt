-- ===== src/Api/Web.antt =====
-- The files of the web interface: handleWeb of internal/control/api.go and resolveWebDir of
-- internal/control/runtime.go, with what filepath.Join and filepath.Rel do to rooted paths. The
-- file is then served by http.ServeFile, whose own status is taken as 200.
use mathlib.Core.Bool.{false≢true}
use frp_cluster.Base.{
  ◌≢◌, ℕ, ◌==◌, All, All-append, subst, arith, Bool, true, false, ◌||◌, ◌≡◌, refl, ◌∙◌, List, [],
  ◌∷◌, ◌++◌, map, if◌then◌else◌, Bool-cases, inl, inr, sym,
}
use frp_cluster.Text.{
  Text, str, text_eq, text_eq_iff, trim_space, has_prefix, split, join, cons_head, Lacks,
}
use frp_cluster.Api.{Api, World, HttpRequest, file_at, Response, Handler}
use frp_cluster.Api.Answers.{answer, refuse}
use frp_cluster.Api.Cluster.{trim_prefix, not_found}

-- `filepath.Abs` is taken to succeed
unfoldable pub resolve_web_dir : World → Text → Text
resolve_web_dir w value =
    let dir = trim_space value in
    if text_eq dir [] then [] else if has_prefix dir (str "/") then dir else w.absolute dir

unfoldable but_last {ℓ} : {A : Type ℓ} → List A → List A
but_last [] = []
but_last (x ∷ []) = []
but_last (x ∷ y ∷ ys) = x ∷ but_last (y ∷ ys)

-- Clean: the elements of a rooted path after those that are kept
unfoldable clean_parts : List Text → List Text → List Text
unfolding but_last
clean_parts kept [] = kept
clean_parts kept (part ∷ parts) =
    clean_parts
      (if text_eq part [] || text_eq part (str ".")
        then kept
        else if text_eq part (str "..")
        then but_last kept
        else kept ++ part ∷ [])
      parts

-- the elements of a directory
unfoldable pub dir_parts : Text → List Text
unfolding clean_parts
dir_parts dir = clean_parts [] (split b'/' dir)

-- `filepath.Join(dir, path)`, by its elements
unfoldable join_parts : Text → Text → List Text
unfolding dir_parts
join_parts dir path = clean_parts (dir_parts dir) (split b'/' path)

unfoldable pub path_text : List Text → Text
path_text parts = str "/" ++ join (str "/") parts

-- `filepath.Rel`, by its elements
unfoldable rel_parts : List Text → List Text → List Text
rel_parts [] target = target
rel_parts (b ∷ base) [] = str ".." ∷ map (λ _. str "..") base
rel_parts (b ∷ base) (t ∷ target) =
    let inner = rel_parts base target in
    if text_eq b t then inner else str ".." ∷ (map (λ _. str "..") base ++ t ∷ target)

-- does the relative path go up, or look so
unfoldable goes_up : List Text → List Text → Bool
unfolding rel_parts
goes_up base target = has_prefix (join (str "/") (rel_parts base target)) (str "..")

-- the path below the directory that is asked for
unfoldable page_of : Text → Text
page_of path =
    let page = trim_prefix path (str "/") in if text_eq page [] then str "index.html" else page

unfoldable file_in : World → Text → Text → Response
unfolding goes_up join_parts path_text page_of
file_in w dir path =
    let full = join_parts dir (page_of path) in
    if goes_up (dir_parts dir) full
    then not_found
    else if w.is_file (path_text full)
    then answer 200 (file_at (path_text full))
    else answer 200 (file_at (path_text (join_parts dir (str "index.html"))))

unfoldable web_answer : World → HttpRequest → Api → Response
unfolding file_in resolve_web_dir
web_answer w r a =
    let dir = resolve_web_dir w a.web_dir in
    if has_prefix r.path (str "/api/")
    then not_found
    else if text_eq dir []
    then refuse 404 (str "web assets not configured")
    else file_in w dir r.path

unfoldable pub handle_web : Handler
unfolding web_answer
handle_web w r a = (web_answer w r a, a)

-- the name of a file or of a directory, and neither of the names that go elsewhere
abbrev pub IsPlain : Text → Type 0
IsPlain part = (part ≢ []) × (part ≢ str ".") × (part ≢ str "..") × Lacks b'/' part

-- a file that is in a directory, or deeper: the directory's path and plain names after it
abbrev pub IsWithin : Text → Text → Type 0
IsWithin dir file =
    (rest : List Text) × (file ≡ path_text (dir_parts dir ++ rest)) × All IsPlain rest

cons_head-Lacks :
    (sep c : ℕ) (parts : List Text)
    → (c == sep) ≡ false
    → All (Lacks sep) parts
    → All (Lacks sep) (cons_head c parts)
unfolding cons_head
cons_head-Lacks sep c [] h k = ((h, tt), tt)
cons_head-Lacks sep c (part ∷ parts) h k = ((h, k.0), k.1)

split-Lacks : (sep : ℕ) (s : Text) → All (Lacks sep) (split sep s)
unfolding split
split-Lacks sep [] = (tt, tt)
split-Lacks sep (c ∷ cs) = elim (Bool-cases (c == sep)) [
  | inl e ↦ rw e (tt, split-Lacks sep cs)
  | inr e ↦ rw e (cons_head-Lacks sep c (split sep cs) e (split-Lacks sep cs))
]

but_last-IsPlain : (parts : List Text) → All IsPlain parts → All IsPlain (but_last parts)
unfolding but_last
but_last-IsPlain [] h = h
but_last-IsPlain (x ∷ []) h = h.1
but_last-IsPlain (x ∷ y ∷ ys) h = (h.0, but_last-IsPlain (y ∷ ys) h.1)

clean_parts-IsPlain :
    (kept parts : List Text)
    → All IsPlain kept
    → All (Lacks b'/') parts
    → All IsPlain (clean_parts kept parts)
unfolding clean_parts
clean_parts-IsPlain kept [] h k = h
clean_parts-IsPlain kept (part ∷ parts) h k =
    elim (Bool-cases (text_eq part [] || text_eq part (str "."))) [
      | inl skip ↦ rw skip (clean_parts-IsPlain kept parts h k.1)
      | inr name ↦ elim (Bool-cases (text_eq part (str ".."))) [
        | inl up ↦ rw (name, up) (clean_parts-IsPlain _ parts (but_last-IsPlain kept h) k.1)
        | inr plain ↦
            let stays : IsPlain part = (
              λ e. ground (arith, name, (text_eq_iff part []).1 e),
              λ e. ground (arith, name, (text_eq_iff part (str ".")).1 e),
              λ e. ground (arith, plain, (text_eq_iff part (str "..")).1 e),
              k.0,
            ) in
            rw (name, plain)
              (clean_parts-IsPlain _ parts (All-append IsPlain kept (part ∷ []) h (stays, tt)) k.1)
      ]
    ]

join_parts-IsPlain : (dir path : Text) → All IsPlain (join_parts dir path)
unfolding join_parts dir_parts
join_parts-IsPlain dir path =
    clean_parts-IsPlain _ (split b'/' path)
      (clean_parts-IsPlain [] (split b'/' dir) tt (split-Lacks b'/' dir)) (split-Lacks b'/' path)

rest-IsPlain : (parts rest : List Text) → All IsPlain (parts ++ rest) → All IsPlain rest
rest-IsPlain [] rest h = h
rest-IsPlain (part ∷ parts) rest h = rest-IsPlain parts rest h.1

up_first : (parts : List Text) → has_prefix (join (str "/") (str ".." ∷ parts)) (str "..") ≡ true
unfolding has_prefix join str
up_first [] = refl
up_first (part ∷ parts) = refl

below :
    (base target : List Text)
    → goes_up base target ≡ false
    → (rest : List Text) × (target ≡ base ++ rest)
unfolding goes_up rel_parts
below [] target h = (target, refl)
below (b ∷ base) [] h = absurd (false≢true (sym h ∙ up_first _))
below (b ∷ base) (t ∷ target) h = elim (Bool-cases (text_eq b t)) [
  | inl e ↦
      let (rest, same) = below base target (rw e at h) in (rest, cc ((text_eq_iff b t).0 e, same))
  | inr e ↦ absurd (false≢true (sym (rw e at h) ∙ up_first _))
]

index_parts :
    (dir : Text) → join_parts dir (str "index.html") ≡ dir_parts dir ++ str "index.html" ∷ []
unfolding join_parts clean_parts split text_eq str
index_parts dir = refl

file_in-IsWithin :
    (w : World) (dir path file : Text)
    → (file_in w dir path).answer ≡ file_at file
    → IsWithin dir file
unfolding file_in not_found refuse answer
file_in-IsWithin w dir path file h =
    let full = join_parts dir (page_of path) in
    elim (Bool-cases (goes_up (dir_parts dir) full)) [
      | inl e ↦ absurd (cc (rw e at h))
      | inr e ↦ elim (Bool-cases (w.is_file (path_text full))) [
        | inl f ↦
            let (rest, same) = below (dir_parts dir) full e in
            (
              rest,
              cc (same, rw (e, f) at h),
              rest-IsPlain (dir_parts dir) rest
                  (subst (All IsPlain) same (join_parts-IsPlain dir (page_of path))),
            )
        | inr f ↦ (
          str "index.html" ∷ [],
          cc (index_parts dir, rw (e, f) at h),
          rest-IsPlain (dir_parts dir) (str "index.html" ∷ [])
              (subst (All IsPlain) (index_parts dir) (join_parts-IsPlain dir (str "index.html"))),
        )
      ]
    ]

-- The web interface hands out no file but those in its directory: whatever a path says, with `..`
-- or without, the path of the file that is served is the directory's own, followed by names of
-- which none is empty, `.` or `..` or has a slash.
pub handle_web-IsWithin :
    (w : World) (r : HttpRequest) (a : Api) (file : Text)
    → (handle_web w r a).0.answer ≡ file_at file
    → IsWithin (resolve_web_dir w a.web_dir) file
unfolding handle_web web_answer not_found refuse answer
handle_web-IsWithin w r a file h =
    let dir = resolve_web_dir w a.web_dir in
    elim (Bool-cases (has_prefix r.path (str "/api/"))) [
      | inl e ↦ absurd (cc (rw e at h))
      | inr e ↦ elim (Bool-cases (text_eq dir [])) [
        | inl f ↦ absurd (cc (rw (e, f) at h))
        | inr f ↦ file_in-IsWithin w dir r.path file (rw (e, f) at h)
      ]
    ]
