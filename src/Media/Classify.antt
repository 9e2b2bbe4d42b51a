-- ===== src/Media/Classify.antt =====
-- src/domain/media.rs: the renderer of a file, from its name and media type.
pub mod Agreement
use silicon_briefcase.Prelude.{
  ℕ, Bool, true, false, ◌&&◌, ◌||◌, Option, none, some, List, [], ◌∷◌, map, any, ltb, if◌then◌else◌,
}
use silicon_briefcase.Text.{
  Str, codes, is_empty, str_eq, trim, split_once, rsplit_once, byte_len, to_ascii_lowercase,
  ends_with, contains_text,
}
use silicon_briefcase.Media.{
  RenderKind, image, video, document, spreadsheet, presentation, audio, archive, code, unsupported,
}
use silicon_briefcase.Media.Tables.{extensions}

abbrev pub all_render_kinds : List RenderKind
all_render_kinds =
    image ∷ video ∷ document ∷ spreadsheet ∷ presentation ∷ audio ∷ archive ∷ code ∷ []

abbrev pub is_one_of : List Str → Str → Bool
is_one_of words s = any (λ word. str_eq word s) words

unfoldable pub find_kind : (RenderKind → Bool) → List RenderKind → Option RenderKind
find_kind p [] = none
find_kind p (kind ∷ kinds) = let later = find_kind p kinds in if p kind then some kind else later

unfoldable pub from_extension : Str → Option RenderKind
from_extension e = find_kind (λ kind. is_one_of (extensions kind) e) all_render_kinds

unfoldable pub extension : Str → Option Str
extension name = elim (rsplit_once b'.' name) [
  | none ↦ none
  | some parts ↦
      if is_empty parts.1 || ltb 16 (byte_len parts.1)
      then none
      else some (map to_ascii_lowercase parts.1)
]

unfoldable pub from_application_subtype : Str → Option RenderKind
from_application_subtype subtype =
    if contains_text (codes "spreadsheet") subtype || ends_with (codes "ms-excel") subtype
    then some spreadsheet
    else if contains_text (codes "presentation") subtype
        || ends_with (codes "ms-powerpoint") subtype
    then some presentation
    else if contains_text (codes "wordprocessing") subtype
        || ends_with (codes "msword") subtype
        || str_eq subtype (codes "pdf")
    then some document
    else if contains_text (codes "zip") subtype
        || contains_text (codes "tar") subtype
        || contains_text (codes "compressed") subtype
        || is_one_of (codes "gzip" ∷ codes "x-7z-compressed" ∷ codes "x-bzip2" ∷ codes "x-rar" ∷ [])
            subtype
    then some archive
    else if is_one_of (codes "json" ∷ codes "xml" ∷ []) subtype
        || ends_with (codes "+json") subtype
        || ends_with (codes "+xml") subtype
        || is_one_of (codes "javascript" ∷ codes "x-yaml" ∷ codes "yaml" ∷ codes "sql" ∷ []) subtype
    then some code
    else none

unfoldable pub of_text_subtype : Str → RenderKind
of_text_subtype subtype =
    if is_one_of (codes "csv" ∷ codes "tab-separated-values" ∷ []) subtype
    then spreadsheet
    else if is_one_of (codes "markdown" ∷ codes "plain" ∷ codes "richtext" ∷ []) subtype
    then document
    else code

unfoldable pub of_type : Str → Str → Option RenderKind
of_type top_level subtype =
    if str_eq top_level (codes "image")
    then some image
    else if str_eq top_level (codes "video")
    then some video
    else if str_eq top_level (codes "audio")
    then some audio
    else if str_eq top_level (codes "text")
    then some (of_text_subtype subtype)
    else if str_eq top_level (codes "application")
    then from_application_subtype subtype
    else none

-- `split(';').next()`.
abbrev before_semicolon : Str → Option (Str × Str) → Str
before_semicolon s none = s
before_semicolon s (some parts) = parts.0

-- The media type without its parameters.
abbrev pub essence : Str → Str
essence content_type =
    map to_ascii_lowercase (trim (before_semicolon content_type (split_once b';' content_type)))

unfoldable pub from_media_type : Str → Option RenderKind
from_media_type content_type = elim (split_once b'/' (essence content_type)) [
  | none ↦ none
  | some parts ↦ of_type parts.0 parts.1
]

abbrev pub by_name : Option Str → Option RenderKind
by_name none = none
by_name (some e) = from_extension e

abbrev pub by_type : Option Str → RenderKind
by_type none = unsupported
by_type (some content_type) = elim (from_media_type content_type) [
  | none ↦ unsupported
  | some kind ↦ kind
]

abbrev pub or_by_type : Option RenderKind → Option Str → RenderKind
or_by_type (some kind) content_type = kind
or_by_type none content_type = by_type content_type

unfoldable pub classify : Str → Option Str → RenderKind
classify name content_type = or_by_type (by_name (extension name)) content_type
