-- ===== src/Media/Examples.antt =====
-- A name whose extension decides its renderer.
use silicon_briefcase.Prelude.{◌≡◌, refl, some}
use silicon_briefcase.Text.{codes}
use silicon_briefcase.Media.{spreadsheet}
use silicon_briefcase.Media.Classify.{classify}
use silicon_briefcase.Media.Classify.Agreement.{classify_of_table}

classify_of_table_example :
    classify (codes "Budget.XLSX") (some (codes "text/plain; charset=utf-8")) ≡ spreadsheet
unfolding silicon_briefcase.Media.Classify.extension silicon_briefcase.Media.Tables.extensions
    silicon_briefcase.Text.rsplit_once silicon_briefcase.Text.byte_len
    silicon_briefcase.Text.len_utf8 silicon_briefcase.Text.to_ascii_lowercase
    silicon_briefcase.Text.str_eq
classify_of_table_example =
    classify_of_table spreadsheet (codes "Budget.XLSX") (codes "xlsx")
      (some (codes "text/plain; charset=utf-8")) refl refl
