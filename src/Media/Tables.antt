-- ===== src/Media/Tables.antt =====
-- src/domain/media.rs: the extensions and media types of each renderer.
use silicon_briefcase.Prelude.{List, [], ◌∷◌}
use silicon_briefcase.Text.{Str, codes}
use silicon_briefcase.Media.{
  RenderKind, image, video, document, spreadsheet, presentation, audio, archive, code, unsupported,
}

abbrev image_extensions : List Str
image_extensions =
    codes "apng"
    ∷ codes "avif"
    ∷ codes "bmp"
    ∷ codes "gif"
    ∷ codes "heic"
    ∷ codes "heif"
    ∷ codes "ico"
    ∷ codes "jfif"
    ∷ codes "jpeg"
    ∷ codes "jpg"
    ∷ codes "pjpeg"
    ∷ codes "png"
    ∷ codes "svg"
    ∷ codes "svgz"
    ∷ codes "tif"
    ∷ codes "tiff"
    ∷ codes "webp"
    ∷ []

abbrev video_extensions : List Str
video_extensions =
    codes "3g2"
    ∷ codes "3gp"
    ∷ codes "avi"
    ∷ codes "flv"
    ∷ codes "m4v"
    ∷ codes "mkv"
    ∷ codes "mov"
    ∷ codes "mp4"
    ∷ codes "mpeg"
    ∷ codes "mpg"
    ∷ codes "ogv"
    ∷ codes "webm"
    ∷ codes "wmv"
    ∷ []

abbrev document_extensions : List Str
document_extensions =
    codes "doc"
    ∷ codes "docx"
    ∷ codes "epub"
    ∷ codes "md"
    ∷ codes "markdown"
    ∷ codes "odt"
    ∷ codes "pages"
    ∷ codes "pdf"
    ∷ codes "rst"
    ∷ codes "rtf"
    ∷ codes "tex"
    ∷ codes "txt"
    ∷ []

abbrev spreadsheet_extensions : List Str
spreadsheet_extensions =
    codes "csv"
    ∷ codes "numbers"
    ∷ codes "ods"
    ∷ codes "tsv"
    ∷ codes "xls"
    ∷ codes "xlsb"
    ∷ codes "xlsm"
    ∷ codes "xlsx"
    ∷ []

abbrev presentation_extensions : List Str
presentation_extensions =
    codes "key" ∷ codes "odp" ∷ codes "pot" ∷ codes "potx" ∷ codes "ppt" ∷ codes "pptx" ∷ []

abbrev audio_extensions : List Str
audio_extensions =
    codes "aac"
    ∷ codes "aiff"
    ∷ codes "amr"
    ∷ codes "flac"
    ∷ codes "m4a"
    ∷ codes "mid"
    ∷ codes "midi"
    ∷ codes "mp3"
    ∷ codes "oga"
    ∷ codes "ogg"
    ∷ codes "opus"
    ∷ codes "wav"
    ∷ codes "wma"
    ∷ []

abbrev archive_extensions : List Str
archive_extensions =
    codes "7z"
    ∷ codes "br"
    ∷ codes "bz2"
    ∷ codes "cab"
    ∷ codes "dmg"
    ∷ codes "gz"
    ∷ codes "gzip"
    ∷ codes "iso"
    ∷ codes "jar"
    ∷ codes "rar"
    ∷ codes "tar"
    ∷ codes "tgz"
    ∷ codes "txz"
    ∷ codes "xz"
    ∷ codes "zip"
    ∷ codes "zst"
    ∷ []

abbrev code_extensions : List Str
code_extensions =
    codes "bat"
    ∷ codes "c"
    ∷ codes "cc"
    ∷ codes "cfg"
    ∷ codes "clj"
    ∷ codes "conf"
    ∷ codes "cpp"
    ∷ codes "cs"
    ∷ codes "css"
    ∷ codes "dart"
    ∷ codes "diff"
    ∷ codes "ejs"
    ∷ codes "elm"
    ∷ codes "env"
    ∷ codes "erl"
    ∷ codes "ex"
    ∷ codes "exs"
    ∷ codes "go"
    ∷ codes "gradle"
    ∷ codes "graphql"
    ∷ codes "h"
    ∷ codes "hbs"
    ∷ codes "hpp"
    ∷ codes "hs"
    ∷ codes "htm"
    ∷ codes "html"
    ∷ codes "ini"
    ∷ codes "ipynb"
    ∷ codes "java"
    ∷ codes "js"
    ∷ codes "json"
    ∷ codes "jsonl"
    ∷ codes "jsx"
    ∷ codes "kt"
    ∷ codes "kts"
    ∷ codes "less"
    ∷ codes "lock"
    ∷ codes "log"
    ∷ codes "lua"
    ∷ codes "m"
    ∷ codes "mjs"
    ∷ codes "ml"
    ∷ codes "patch"
    ∷ codes "php"
    ∷ codes "pl"
    ∷ codes "properties"
    ∷ codes "proto"
    ∷ codes "ps1"
    ∷ codes "py"
    ∷ codes "r"
    ∷ codes "rb"
    ∷ codes "rs"
    ∷ codes "sass"
    ∷ codes "scala"
    ∷ codes "scss"
    ∷ codes "sh"
    ∷ codes "sql"
    ∷ codes "svelte"
    ∷ codes "swift"
    ∷ codes "tf"
    ∷ codes "toml"
    ∷ codes "ts"
    ∷ codes "tsx"
    ∷ codes "vue"
    ∷ codes "xml"
    ∷ codes "yaml"
    ∷ codes "yml"
    ∷ codes "zsh"
    ∷ []

-- `RenderKind::extensions`.
unfoldable pub extensions : RenderKind → List Str
extensions image = image_extensions
extensions video = video_extensions
extensions document = document_extensions
extensions spreadsheet = spreadsheet_extensions
extensions presentation = presentation_extensions
extensions audio = audio_extensions
extensions archive = archive_extensions
extensions code = code_extensions
extensions unsupported = []

unfoldable media_type_prefixes : RenderKind → List Str
media_type_prefixes image = codes "image/" ∷ []
media_type_prefixes video = codes "video/" ∷ []
media_type_prefixes document =
    codes "text/plain"
    ∷ codes "text/markdown"
    ∷ codes "text/richtext"
    ∷ codes "application/pdf"
    ∷ codes "application/msword"
    ∷ codes "application/vnd.openxmlformats-officedocument.wordprocessing"
    ∷ []
media_type_prefixes spreadsheet =
    codes "text/csv"
    ∷ codes "text/tab-separated-values"
    ∷ codes "application/vnd.ms-excel"
    ∷ codes "application/vnd.openxmlformats-officedocument.spreadsheet"
    ∷ codes "application/vnd.oasis.opendocument.spreadsheet"
    ∷ []
media_type_prefixes presentation =
    codes "application/vnd.ms-powerpoint"
    ∷ codes "application/vnd.openxmlformats-officedocument.presentation"
    ∷ codes "application/vnd.oasis.opendocument.presentation"
    ∷ []
media_type_prefixes audio = codes "audio/" ∷ []
media_type_prefixes archive =
    codes "application/zip"
    ∷ codes "application/gzip"
    ∷ codes "application/x-tar"
    ∷ codes "application/x-7z-compressed"
    ∷ codes "application/x-bzip2"
    ∷ codes "application/x-rar"
    ∷ codes "application/vnd.rar"
    ∷ []
media_type_prefixes code =
    codes "text/"
    ∷ codes "application/json"
    ∷ codes "application/xml"
    ∷ codes "application/javascript"
    ∷ codes "application/sql"
    ∷ codes "application/yaml"
    ∷ codes "application/x-yaml"
    ∷ []
media_type_prefixes unsupported = []
