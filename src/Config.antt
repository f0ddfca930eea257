-- ===== src/Config.antt =====
-- pkg/config/config.go: Load. The environment variable, the file and the YAML decoder are parameters,
-- and `C` is the configuration.
use telekom_k8s_breakglass.Prelude.{
  ◌++◌, Str, codes, is_empty, if◌then◌else◌, Result, ok, err, Result-cases, ok-ne-err, ◌≡◌, ◌∙◌,
  sym, inl, inr,
}

pub config_path : Str → Str
config_path path = if is_empty path then codes "./config.yaml" else path

module _ {C : Type 0} (read_file : Str → Result Str) (unmarshal : Str → Result C) where
  pub load : Str → Result C
  unfolding config_path
  load path = elim (read_file (config_path path)) [
    | err e ↦
        err (codes "trying to open breakglass config file " ++ config_path path ++ codes ": " ++ e)
    | ok content ↦ elim (unmarshal content) [
      | err e ↦ err (codes "error unmarshaling YAML " ++ config_path path ++ codes ": " ++ e)
      | ok config ↦ ok config
    ]
  ]

  -- A loaded configuration is what the decoder makes of the content of the configured file.
  pub load_sound :
      (path : Str) (config : C)
      → load path ≡ ok config
      → (content : Str) × (read_file (config_path path) ≡ ok content)
        × (unmarshal content ≡ ok config)
  unfolding load
  load_sound path config h = elim (Result-cases (read_file (config_path path))) [
    | inr (x, e) ↦ absurd (ok-ne-err (sym (rw (load, e) at h)))
    | inl (content, e) ↦ elim (Result-cases (unmarshal content)) [
      | inr (x, q) ↦ absurd (ok-ne-err (sym (rw (load, e, q) at h)))
      | inl (c, q) ↦ (content, e, q ∙ rw (load, e, q) at h)
    ]
  ]
