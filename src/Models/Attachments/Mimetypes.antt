-- ===== src/Models/Attachments/Mimetypes.antt =====
-- EXTENSIONS_TO_MIMETYPES and the type of a file name.
use pybotx.Common.{List, [], ◌∷◌, Option, none, some}
use pybotx.Common.Text.{Str, codes, lower, after_last}
use pybotx.Common.Dict.{lookup}

unfoldable pub extensions_to_mimetypes : List (Str × Str)
extensions_to_mimetypes =
    (codes "7z", codes "application/x-7z-compressed")
    ∷ (codes "abw", codes "application/x-abiword")
    ∷ (codes "ai", codes "application/postscript")
    ∷ (codes "arc", codes "application/x-freearc")
    ∷ (codes "azw", codes "application/vnd.amazon.ebook")
    ∷ (codes "bin", codes "application/octet-stream")
    ∷ (codes "bz", codes "application/x-bzip")
    ∷ (codes "bz2", codes "application/x-bzip2")
    ∷ (codes "cda", codes "application/x-cdf")
    ∷ (codes "csh", codes "application/x-csh")
    ∷ (codes "doc", codes "application/msword")
    ∷ (
      codes "docx",
      codes "application/vnd.openxmlformats-officedocument.wordprocessingml.document",
    )
    ∷ (codes "eot", codes "application/vnd.ms-fontobject")
    ∷ (codes "eps", codes "application/postscript")
    ∷ (codes "epub", codes "application/epub+zip")
    ∷ (codes "gz", codes "application/gzip")
    ∷ (codes "jar", codes "application/java-archive")
    ∷ (codes "json-api", codes "application/vnd.api+json")
    ∷ (codes "json-patch", codes "application/json-patch+json")
    ∷ (codes "json", codes "application/json")
    ∷ (codes "jsonld", codes "application/ld+json")
    ∷ (codes "mdb", codes "application/x-msaccess")
    ∷ (codes "mpkg", codes "application/vnd.apple.installer+xml")
    ∷ (codes "odp", codes "application/vnd.oasis.opendocument.presentation")
    ∷ (codes "ods", codes "application/vnd.oasis.opendocument.spreadsheet")
    ∷ (codes "odt", codes "application/vnd.oasis.opendocument.text")
    ∷ (codes "ogx", codes "application/ogg")
    ∷ (codes "pdf", codes "application/pdf")
    ∷ (codes "php", codes "application/x-httpd-php")
    ∷ (codes "ppt", codes "application/vnd.ms-powerpoint")
    ∷ (
      codes "pptx",
      codes "application/vnd.openxmlformats-officedocument.presentationml.presentation",
    )
    ∷ (codes "ps", codes "application/postscript")
    ∷ (codes "rar", codes "application/vnd.rar")
    ∷ (codes "rtf", codes "application/rtf")
    ∷ (codes "sh", codes "application/x-sh")
    ∷ (codes "swf", codes "application/x-shockwave-flash")
    ∷ (codes "tar", codes "application/x-tar")
    ∷ (codes "vsd", codes "application/vnd.visio")
    ∷ (codes "wasm", codes "application/wasm")
    ∷ (codes "webmanifest", codes "application/manifest+json")
    ∷ (codes "xhtml", codes "application/xhtml+xml")
    ∷ (codes "xls", codes "application/vnd.ms-excel")
    ∷ (codes "xlsx", codes "application/vnd.openxmlformats-officedocument.spreadsheetml.sheet")
    ∷ (codes "xul", codes "application/vnd.mozilla.xul+xml")
    ∷ (codes "zip", codes "application/zip")
    ∷ (codes "aac", codes "audio/aac")
    ∷ (codes "mid", codes "audio/midi")
    ∷ (codes "midi", codes "audio/midi")
    ∷ (codes "mp3", codes "audio/mpeg")
    ∷ (codes "oga", codes "audio/ogg")
    ∷ (codes "opus", codes "audio/opus")
    ∷ (codes "wav", codes "audio/wav")
    ∷ (codes "weba", codes "audio/webm")
    ∷ (codes "otf", codes "font/otf")
    ∷ (codes "ttf", codes "font/ttf")
    ∷ (codes "woff", codes "font/woff")
    ∷ (codes "woff2", codes "font/woff2")
    ∷ (codes "avif", codes "image/avif")
    ∷ (codes "bmp", codes "image/bmp")
    ∷ (codes "gif", codes "image/gif")
    ∷ (codes "ico", codes "image/vnd.microsoft.icon")
    ∷ (codes "jpeg", codes "image/jpeg")
    ∷ (codes "jpg", codes "image/jpeg")
    ∷ (codes "png", codes "image/png")
    ∷ (codes "svg", codes "image/svg+xml")
    ∷ (codes "svgz", codes "image/svg+xml")
    ∷ (codes "tif", codes "image/tiff")
    ∷ (codes "tiff", codes "image/tiff")
    ∷ (codes "webp", codes "image/webp")
    ∷ (codes "css", codes "text/css")
    ∷ (codes "csv", codes "text/csv")
    ∷ (codes "htm", codes "text/html")
    ∷ (codes "html", codes "text/html")
    ∷ (codes "ics", codes "text/calendar")
    ∷ (codes "js", codes "text/javascript")
    ∷ (codes "mjs", codes "text/javascript")
    ∷ (codes "txt", codes "text/plain")
    ∷ (codes "text", codes "text/plain")
    ∷ (codes "xml", codes "text/xml")
    ∷ (codes "3g2", codes "video/3gpp2")
    ∷ (codes "3gp", codes "video/3gpp")
    ∷ (codes "avi", codes "video/x-msvideo")
    ∷ (codes "mov", codes "video/quicktime")
    ∷ (codes "mp4", codes "video/mp4")
    ∷ (codes "mpeg", codes "video/mpeg")
    ∷ (codes "mpg", codes "video/mpeg")
    ∷ (codes "ogv", codes "video/ogg")
    ∷ (codes "ts", codes "video/mp2t")
    ∷ (codes "webm", codes "video/webm")
    ∷ (codes "wmv", codes "video/x-ms-wmv")
    ∷ []

abbrev pub default_mimetype : Str
default_mimetype = codes "application/octet-stream"

abbrev pub or_default : Option Str → Str
or_default none = default_mimetype
or_default (some mimetype) = mimetype

-- `filename.rsplit(".", 1)[-1].lower()`
unfoldable pub extension_of : Str → Str
unfolding lower after_last
extension_of filename = lower (after_last b'.' filename)

unfoldable pub get_mimetype_by_filename : Str → Str
get_mimetype_by_filename filename =
    or_default (lookup (extension_of filename) extensions_to_mimetypes)
