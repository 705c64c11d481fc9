-- ===== src/Main/Setup.antt =====
-- src/main.rs: `setup_winfsp_dll_path`, over the registry and the directory setting of Windows.
use arfw.Base.{
  ℕ, ◌*◌, ◌≡◌, ap, ◌∙◌, true, List, [], ◌∷◌, ◌++◌, length, drop, replicate, Io, ◌>>=◌, map_err,
}
use arfw.Base.Text.{codes}
use arfw.Utils.Wide.{
  encode_wide, decode_lossy, before_null, path_to_wide, is_path, before_null-encode_wide,
  decode_lossy-encode_wide,
}

-- The value is read into a buffer of so many bytes, and the units that are written come back.
pub record SetupApi (World : Type 0) : Type 1 where
  pub WindowsError : Type 0
  pub reg_get_value : ℕ → Io World WindowsError (List ℕ)
  pub set_dll_directory : List ℕ → Io World WindowsError (Unit {0})

pub data SetupError {World : Type 0} (api : SetupApi World) : Type 0 where
  no_registry_key : SetupError api
  windows : api.WindowsError → SetupError api

-- The directory that is set, from the buffer with the value of the registry.
unfoldable pub dll_directory : List ℕ → List ℕ
unfolding encode_wide decode_lossy before_null
dll_directory path =
    let bin_path = decode_lossy (before_null path) ++ codes "\\bin" in
    encode_wide bin_path ++ (0 ∷ [])

-- The buffer of 260 zeros, whose first units the registry has overwritten.
abbrev pub buffer_with : List ℕ → List ℕ
buffer_with value = value ++ drop (length value) (replicate 260 0)

unfoldable pub setup_winfsp_dll_path :
    {World : Type 0} (api : SetupApi World) → Io World (SetupError api) (Unit {0})
unfolding dll_directory
setup_winfsp_dll_path api = do
  value ← map_err (λ e. no_registry_key) (api.reg_get_value (260 * 2))
  map_err windows (api.set_dll_directory (dll_directory (buffer_with value)))

-- If the buffer begins with the null-terminated wide text of a path without null characters, then the
-- directory is the folder `bin` of that path, whatever follows in the buffer.
pub dll_directory-encode_wide :
    (install_dir later : List ℕ)
    → is_path install_dir ≡ true
    → dll_directory (encode_wide install_dir ++ (0 ∷ later))
      ≡ path_to_wide (install_dir ++ codes "\\bin")
unfolding dll_directory path_to_wide
dll_directory-encode_wide install_dir later h =
    ap (λ units. encode_wide (decode_lossy units ++ codes "\\bin") ++ (0 ∷ []))
      (before_null-encode_wide install_dir later h)
    ∙ ap (λ text. encode_wide (text ++ codes "\\bin") ++ (0 ∷ []))
        (decode_lossy-encode_wide install_dir h)
