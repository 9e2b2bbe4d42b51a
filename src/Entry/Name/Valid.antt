-- ===== src/Entry/Name/Valid.antt =====
-- The names that are accepted.
use silicon_briefcase.Prelude.{false, ◌||◌, ◌≡◌, ◌≤◌, sym, subst, ok, arith}
use silicon_briefcase.Text.{Str, trim, byte_len, is_empty, contains_char, str_eq}
use silicon_briefcase.Text.Trim.{trim_idem}
use silicon_briefcase.Entry.Name.{max_entry_name_bytes, dot, dot_dot, check_name, entry_name}

-- A name as the file tree keeps it.
pub record IsName (n : Str) : Type 0 where
  pub trimmed : trim n ≡ n
  pub nonempty : is_empty n ≡ false
  pub short : byte_len n ≤ max_entry_name_bytes
  pub no_nul : contains_char 0 n ≡ false
  pub no_slash : contains_char b'/' n ≡ false
  pub not_dots : (str_eq n dot || str_eq n dot_dot) ≡ false

check_name_ok :
    (s n : Str)
    → check_name s ≡ ok n
    → (n ≡ s)
      × (is_empty s ≡ false)
      × (byte_len s ≤ max_entry_name_bytes)
      × (contains_char 0 s ≡ false)
      × (contains_char b'/' s ≡ false)
      × ((str_eq s dot || str_eq s dot_dot) ≡ false)
unfolding check_name
check_name_ok s n h = ground arith

-- An accepted name is the trimmed text, and satisfies every rule for names: nothing to trim, not empty,
-- at most 255 bytes, no NUL, no slash, and neither `.` nor `..`.
pub entry_name-IsName : (s n : Str) → entry_name s ≡ ok n → (n ≡ trim s) × IsName n
unfolding entry_name
entry_name-IsName s n h =
    let (e, a, b, c, d, f) = check_name_ok (trim s) n h in
    (
      e,
      subst IsName (sym e) (record {
        trimmed = trim_idem s;
        nonempty = a;
        short = b;
        no_nul = c;
        no_slash = d;
        not_dots = f;
      }),
    )

-- A text that satisfies the rules is accepted as it is.
pub entry_name_of_IsName : (n : Str) → IsName n → entry_name n ≡ ok n
unfolding entry_name check_name
entry_name_of_IsName n v = rw v.trimmed (ground arith)
