-- ===== src/Document.antt =====
-- app/search/document.py. An identifier that is blank is refused; `str.strip` consults the Unicode
-- table of white space, which is a parameter.
use pysearch.Base.{
  ℕ, Str, Bool, true, false, [], ◌∷◌, if◌then◌else◌, Result, ok, err, invalid_document,
}

pub record Document : Type 0 where
  pub document_id : Str
  pub text : Str

-- not s.strip()
unfoldable pub is_blank : (ℕ → Bool) → Str → Bool
is_blank is_space [] = true
is_blank is_space (c ∷ s) = let rest = is_blank is_space s in if is_space c then rest else false

-- Document(document_id=…, text=…) with its `__post_init__`
unfoldable pub make_document : (ℕ → Bool) → Str → Str → Result Document
unfolding is_blank
make_document is_space document_id text =
    if is_blank is_space document_id
    then err invalid_document
    else ok (record { document_id = document_id; text = text })
