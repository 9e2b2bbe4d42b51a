-- ===== src/Entry/Examples.antt =====
-- A folder `a` and a file `b` inside it (src/domain/entry.rs).
use silicon_briefcase.Prelude.{◌≡◌, refl, ok}
use silicon_briefcase.Text.{
  Str, trim, byte_len, codes, is_whitespace, len_utf8, contains_char, str_eq, split,
}
use silicon_briefcase.Entry.Name.{entry_name, check_name}
use silicon_briefcase.Entry.Name.Valid.{IsName, entry_name-IsName}
use silicon_briefcase.Entry.Path.{entry_path, push_segments, check_length}
use silicon_briefcase.Entry.Path.Normal.{IsPath, entry_path-IsPath, entry_path_of_IsPath}

abbrev a : Str
a = codes "a"

abbrev b : Str
b = codes "b"

abbrev child : Str
child = codes "a/b"

a_name : entry_name a ≡ ok a
unfolding entry_name check_name trim is_whitespace byte_len len_utf8 contains_char str_eq
a_name = refl

b_name : entry_name b ≡ ok b
unfolding entry_name check_name trim is_whitespace byte_len len_utf8 contains_char str_eq
b_name = refl

a-IsName : IsName a
a-IsName = (entry_name-IsName a a a_name).1

b-IsName : IsName b
b-IsName = (entry_name-IsName b b b_name).1

a-IsPath : IsPath a
unfolding entry_path trim is_whitespace push_segments split entry_name check_name byte_len len_utf8
    contains_char str_eq check_length
a-IsPath = entry_path-IsPath a a refl

entry_path-IsPath_example : IsPath child
unfolding entry_path trim is_whitespace push_segments split entry_name check_name byte_len len_utf8
    contains_char str_eq check_length
entry_path-IsPath_example = entry_path-IsPath (codes " /a/ b/ ") child refl

entry_path_of_IsPath_example : entry_path a ≡ ok a
entry_path_of_IsPath_example = entry_path_of_IsPath a a-IsPath
