-- ===== src/Velero/Resource/Laws.antt =====
-- The parsers of resource names and of group-version-kind texts, at the texts that Velero writes.
use Prim.Native.Char.{Char, code}
use Prim.Native.String.append
use Prim.Native.String.{◌∷◌, []}
use oadp_vm_file_restore.Prelude.{ℕ, String, ◌<>◌, none, some, ◌≡◌, ◌≢◌, refl, arith, ap, ◌∙◌}
use oadp_vm_file_restore.Velero.Resource.{
  cut_at_slash, parse_namespaced_name, after_last_slash, before_first_dot, extract_kind_from_gvk,
}

-- The character with this code does not occur in the text.
abbrev pub Lacks : ℕ → String → Type 0
Lacks n [] = Unit {0}
Lacks n (c ∷ s) = (code c ≢ n) × Lacks n s

abbrev slash : Char
slash = "/"

abbrev dot : Char
dot = "."

dot_cons : (s : String) → "." <> s ≡ dot ∷ s
dot_cons s = append.cons dot "" s ∙ ap (◌∷◌ dot) (append.nil s)

slash_cons : (s : String) → "/" <> s ≡ slash ∷ s
slash_cons s = append.cons slash "" s ∙ ap (◌∷◌ slash) (append.nil s)

cut_at_slash-append :
    (ns rest : String) → Lacks b'/' ns → cut_at_slash (ns <> ("/" <> rest)) ≡ some (ns, rest)
unfolding cut_at_slash
cut_at_slash-append [] rest h = rw (append.nil, slash_cons)
cut_at_slash-append (c ∷ ns) rest h =
    rw append.cons (ground (arith, cut_at_slash-append ns rest h.1))

-- A namespaced resource is read back in its two parts, if the namespace has no slash.
pub parse_namespaced_name-append :
    (ns name : String) → Lacks b'/' ns → parse_namespaced_name (ns <> ("/" <> name)) ≡ (ns, name)
unfolding parse_namespaced_name
parse_namespaced_name-append ns name h = rw (cut_at_slash-append ns name h, parse_namespaced_name)

cut_at_slash-Lacks : (s : String) → Lacks b'/' s → cut_at_slash s ≡ none
unfolding cut_at_slash
cut_at_slash-Lacks [] h = refl
cut_at_slash-Lacks (c ∷ s) h = ground (arith, cut_at_slash-Lacks s h.1)

-- A text with no slash names a cluster-scoped resource.
pub parse_namespaced_name-Lacks :
    (name : String) → Lacks b'/' name → parse_namespaced_name name ≡ ("", name)
unfolding parse_namespaced_name
parse_namespaced_name-Lacks name h = rw (cut_at_slash-Lacks name h, parse_namespaced_name)

after_last_slash-Lacks : (s : String) → Lacks b'/' s → after_last_slash s ≡ none
unfolding after_last_slash
after_last_slash-Lacks [] h = refl
after_last_slash-Lacks (c ∷ s) h = rw (after_last_slash-Lacks s h.1) (ground arith)

after_last_slash-append :
    (version rest : String)
    → Lacks b'/' rest
    → after_last_slash (version <> ("/" <> rest)) ≡ some rest
unfolding after_last_slash
after_last_slash-append [] rest h =
    rw (append.nil, slash_cons, after_last_slash, after_last_slash-Lacks rest h)
after_last_slash-append (c ∷ version) rest h =
    rw (append.cons, after_last_slash, after_last_slash-append version rest h)

before_first_dot-append :
    (kind group : String) → Lacks b'.' kind → before_first_dot (kind <> ("." <> group)) ≡ kind
unfolding before_first_dot
before_first_dot-append [] group h = rw (append.nil, dot_cons)
before_first_dot-append (c ∷ kind) group h =
    rw append.cons (ground (arith, before_first_dot-append kind group h.1))

before_first_dot-Lacks : (s : String) → Lacks b'.' s → before_first_dot s ≡ s
unfolding before_first_dot
before_first_dot-Lacks [] h = refl
before_first_dot-Lacks (c ∷ s) h = ground (arith, before_first_dot-Lacks s h.1)

Lacks-append : (n : ℕ) (s t : String) → Lacks n s → Lacks n t → Lacks n (s <> t)
Lacks-append n [] t hs ht = rw append.nil ht
Lacks-append n (c ∷ s) t hs ht = rw append.cons (hs.0, Lacks-append n s t hs.1 ht)

-- The kind of `version/Kind.group` is read back, whatever the version is, if neither the kind nor
-- the group has a slash and the kind has no dot; and so it is for `version/Kind`.
pub extract_kind_from_gvk-append :
    (version kind group : String)
    → Lacks b'/' kind
    → Lacks b'/' group
    → Lacks b'.' kind
    → (extract_kind_from_gvk (version <> ("/" <> (kind <> ("." <> group)))) ≡ kind)
      × (extract_kind_from_gvk (version <> ("/" <> kind)) ≡ kind)
unfolding extract_kind_from_gvk
extract_kind_from_gvk-append version kind group hk hg hd = (
  rw (after_last_slash-append version _ dotted) (before_first_dot-append kind group hd),
  rw (after_last_slash-append version kind hk) (before_first_dot-Lacks kind hd),
)
  where
    dotted : Lacks b'/' (kind <> ("." <> group))
    dotted = Lacks-append b'/' kind _ hk (rw dot_cons (omega arith, hg))
