-- ===== src/Media/Classify/Agreement.antt =====
-- The renderer of a known extension is the one whose table has it.
use silicon_briefcase.Prelude.{
  ℕ, ◌==◌, ==→≡, ◌≡◌, ◌∙◌, refl, sym, ap, subst, Bool, true, false, Bool-cases, inl, inr, Option,
  none, some, List, [], ◌∷◌, all, arith, if◌then◌else◌,
}
use silicon_briefcase.Text.{Str, str_eq}
use silicon_briefcase.Text.Trim.{str_eq_sound}
use silicon_briefcase.Media.{
  RenderKind, image, video, document, spreadsheet, presentation, audio, archive, code, unsupported,
}
use silicon_briefcase.Media.Tables.{extensions}
use silicon_briefcase.Media.Classify.{
  is_one_of, find_kind, from_extension, extension, by_name, or_by_type, classify,
}

-- A test that all words of a table pass holds of what is one of them.
all-is_one_of :
    (test : Str → Bool) (words : List Str) (e : Str)
    → all test words ≡ true
    → is_one_of words e ≡ true
    → test e ≡ true
all-is_one_of test [] e whole one = absurd (cc)
all-is_one_of test (word ∷ words) e whole one = elim (Bool-cases (str_eq word e)) [
  | inl same ↦ subst (λ w. test w ≡ true) (str_eq_sound word e same) (ground arith)
  | inr different ↦ all-is_one_of test words e (ground arith) (ground arith)
]

-- Renderers are compared by number.
kind_index : RenderKind → ℕ
kind_index image = 0
kind_index video = 1
kind_index document = 2
kind_index spreadsheet = 3
kind_index presentation = 4
kind_index audio = 5
kind_index archive = 6
kind_index code = 7
kind_index unsupported = 8

kind_of_index : ℕ → RenderKind
kind_of_index n =
    if n == 0
    then image
    else if n == 1
    then video
    else if n == 2
    then document
    else if n == 3
    then spreadsheet
    else if n == 4
    then presentation
    else if n == 5
    then audio
    else if n == 6
    then archive
    else if n == 7
    then code
    else unsupported

kind_of_index-kind_index : (kind : RenderKind) → kind_of_index (kind_index kind) ≡ kind
unfolding kind_of_index kind_index
kind_of_index-kind_index image = refl
kind_of_index-kind_index video = refl
kind_of_index-kind_index document = refl
kind_of_index-kind_index spreadsheet = refl
kind_of_index-kind_index presentation = refl
kind_of_index-kind_index audio = refl
kind_of_index-kind_index archive = refl
kind_of_index-kind_index code = refl
kind_of_index-kind_index unsupported = refl

kind_index-injective : (a b : RenderKind) → kind_index a ≡ kind_index b → a ≡ b
kind_index-injective a b same =
    sym (kind_of_index-kind_index a) ∙ ap kind_of_index same ∙ kind_of_index-kind_index b

is_kind : RenderKind → Option RenderKind → Bool
is_kind kind none = false
is_kind kind (some found) = kind_index found == kind_index kind

is_kind_sound :
    (kind : RenderKind) (found : Option RenderKind) → is_kind kind found ≡ true → found ≡ some kind
unfolding is_kind
is_kind_sound kind none held = absurd (cc)
is_kind_sound kind (some found) held =
    ap some (kind_index-injective found kind (==→≡ (kind_index found) (kind_index kind) held))

selects : RenderKind → Str → Bool
selects kind e = is_kind kind (from_extension e)

-- Every extension of a table selects the kind of the table: evaluation checks the tables.
tables_agree : (kind : RenderKind) → all (selects kind) (extensions kind) ≡ true
unfolding selects is_kind kind_index from_extension find_kind extensions str_eq
tables_agree image = refl
tables_agree video = refl
tables_agree document = refl
tables_agree spreadsheet = refl
tables_agree presentation = refl
tables_agree audio = refl
tables_agree archive = refl
tables_agree code = refl
tables_agree unsupported = refl

from_extension_of_table :
    (kind : RenderKind) (e : Str)
    → is_one_of (extensions kind) e ≡ true
    → from_extension e ≡ some kind
unfolding selects
from_extension_of_table kind e one =
    is_kind_sound kind (from_extension e)
      (all-is_one_of (selects kind) (extensions kind) e (tables_agree kind) one)

-- A file whose extension is in the table of a renderer is classified as that renderer, whatever media type it has.
pub classify_of_table :
    (kind : RenderKind) (name e : Str) (content_type : Option Str)
    → extension name ≡ some e
    → is_one_of (extensions kind) e ≡ true
    → classify name content_type ≡ kind
unfolding classify
classify_of_table kind name e content_type named one =
    ap (λ found. or_by_type (by_name found) content_type) named
    ∙ ap (λ found. or_by_type found content_type) (from_extension_of_table kind e one)
