-- ===== src/FileService/Names.antt =====
-- The names and the keys of files in fileService/internal/service/fileservice/service.go, with what they use of
-- path, filepath and strings.
use Prim.Native.Char.{code}
use Prim.Native.String.{len}
use Prim.Native.String
use simply_chat.Base.{
  ltb, String, ◌&&◌, ◌||◌, ◌==◌, nat_eq, int_eq, string_eq, if◌then◌else◌, trim_space, to_lower,
}

strip_slashes : String → String
strip_slashes String.[] = ""
strip_slashes (String.◌∷◌ c s) =
    let rest = strip_slashes s in if rest == "" && code c == b'/' then "" else String.◌∷◌ c rest

after_slash : String → String → String
after_slash last String.[] = last
after_slash last (String.◌∷◌ c s) = after_slash (if code c == b'/' then s else last) s

-- filepath.Base
unfoldable pub base : String → String
unfolding strip_slashes after_slash
base path =
    let stripped = strip_slashes path in
    if path == "" then "." else if stripped == "" then "/" else after_slash stripped stripped

-- strings.ReplaceAll(…, "\x00", "")
without_nul : String → String
without_nul String.[] = ""
without_nul (String.◌∷◌ c s) =
    let rest = without_nul s in if code c == 0 then rest else String.◌∷◌ c rest

unfoldable pub sanitize_filename : String → String
unfolding base without_nul
sanitize_filename filename =
    let cleaned = without_nul (trim_space (base filename)) in
    if cleaned == "." || cleaned == "" then "" else cleaned

-- path.Ext
extension_from : String → String → String
extension_from found String.[] = found
extension_from found (String.◌∷◌ c s) =
    extension_from (if code c == b'.' then String.◌∷◌ c s else if code c == b'/' then "" else found)
      s

-- `len` counts bytes, as Go's does.
unfoldable pub build_object_key : String → String → String → String
unfolding extension_from
build_object_key date_path file_id filename =
    let extension = to_lower (extension_from "" filename) in
    let short = if ltb 16 (len extension) then "" else extension in
    String.◌++◌ "files/" (String.◌++◌ date_path (String.◌++◌ "/" (String.◌++◌ file_id short)))
