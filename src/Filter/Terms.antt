-- ===== src/Filter/Terms.antt =====
-- src/domain/filter.rs: the values of filter terms (`glob`, `date`, `actor`, `permission`,
-- `is_predicate`). `parse_date` stands for `Date::parse` of the crate `time` with the format
-- `[day]-[month]-[year]`.
use silicon_briefcase.Prelude.{
  not, ◌&&◌, ◌||◌, List, [], ◌∷◌, map, Option, none, some, Result, ok, err, ok_or, ltb, leb, ◌==◌,
  if◌then◌else◌, all,
}
use silicon_briefcase.Text.{
  Str, trim, trim_start_matches, byte_len, is_empty, is_ascii_alphanumeric, to_ascii_lowercase,
  str_eq, codes, strip_prefix, strip_suffix_char, split_once,
}
use silicon_briefcase.Identity.Reference.{ActorKind, carbon, silicon}
use silicon_briefcase.Entry.Kind.{file, folder}
use silicon_briefcase.Media.{
  image, video, document, spreadsheet, presentation, audio, archive, code, unsupported,
}
use silicon_briefcase.Permission.Rights.{EffectiveAccess}
use silicon_briefcase.Filter.Expression.{
  GlobTerm, ActorSelector, FilterPredicate, is_kind, is_render, is_expiring, is_self_destruct,
  has_extension,
}
use silicon_briefcase.Filter.Lexer.{FilterError, invalid_value}

unfoldable pub glob : Str → Str → Result GlobTerm FilterError
glob key value =
    let trimmed = trim value in
    if is_empty trimmed || all (λ c. c == b'*') trimmed then err (invalid_value key) else ok trimmed

module _ {Date : Type 0} (parse_date : Str → Option Date) where
  unfoldable pub date : Str → Str → Result Date FilterError
  date key value = ok_or (parse_date (trim value)) (invalid_value key)

abbrev option_or : Str → Option Str → Str
option_or d none = d
option_or d (some s) = s

abbrev strip_both : Option Str → Option Str
strip_both none = none
strip_both (some s) = strip_suffix_char b'}' s

-- The kind that the first segment names, when there is one.
abbrev named_kind : Option (Str × Str) → Option ActorKind
named_kind none = none
named_kind (some (first, rest)) =
    if str_eq first (codes "c")
    then some carbon
    else if str_eq first (codes "si")
    then some silicon
    else none

unfoldable pub actor : Str → Str → Result ActorSelector FilterError
actor key value =
    let trimmed = trim value in
    let without_at = trim (option_or trimmed (strip_prefix (codes "@") trimmed)) in
    let inner = trim (option_or without_at (strip_both (strip_prefix (codes "{") without_at))) in
    let id = trim inner in
    if is_empty inner
    then err (invalid_value key)
    else if is_empty id || ltb 255 (byte_len id)
    then err (invalid_value key)
    else ok (record { kind = named_kind (split_once b':' inner); id = id })

unfoldable pub permission : Str → Str → Result EffectiveAccess FilterError
permission key value =
    let v = map to_ascii_lowercase (trim value) in
    if str_eq v (codes "read")
    then ok EffectiveAccess.read
    else if str_eq v (codes "write")
    then ok EffectiveAccess.write
    else if str_eq v (codes "update")
    then ok EffectiveAccess.update
    else if str_eq v (codes "delete")
    then ok EffectiveAccess.delete
    else if str_eq v (codes "manage_permissions") || str_eq v (codes "manage")
    then ok EffectiveAccess.manage_permissions
    else err (invalid_value key)

-- The words that `is:` knows, in the order of the match.
abbrev words : {A : Type 0} → List (Str × A) → Str → Option A
words [] v = none
words ((w, a) ∷ ws) v = let rest = words ws v in if str_eq v w then some a else rest

module _ {Date : Type 0} where
  abbrev is_words : List (Str × FilterPredicate Date)
  is_words =
      (codes "file", is_kind file)
      ∷ (codes "folder", is_kind folder)
      ∷ (codes "directory", is_kind folder)
      ∷ (codes "image", is_render image)
      ∷ (codes "video", is_render video)
      ∷ (codes "document", is_render document)
      ∷ (codes "spreadsheet", is_render spreadsheet)
      ∷ (codes "presentation", is_render presentation)
      ∷ (codes "audio", is_render audio)
      ∷ (codes "archive", is_render archive)
      ∷ (codes "code", is_render code)
      ∷ (codes "unsupported", is_render unsupported)
      ∷ (codes "expiring", is_expiring)
      ∷ (codes "self-destruct", is_self_destruct)
      ∷ (codes "self_destruct", is_self_destruct)
      ∷ (codes "selfdestruct", is_self_destruct)
      ∷ []

  abbrev extension_or :
      Str → Str → Option (FilterPredicate Date) → Result (FilterPredicate Date) FilterError
  extension_or key v (some p) = ok p
  extension_or key v none =
      if not (is_empty v) && leb (byte_len v) 16 && all is_ascii_alphanumeric v
      then ok (has_extension v)
      else err (invalid_value key)

  unfoldable pub is_predicate : Str → Str → Result (FilterPredicate Date) FilterError
  is_predicate key value =
      let v = map to_ascii_lowercase (trim_start_matches (λ c. c == b'.') (trim value)) in
      extension_or key v (words is_words v)
