-- ===== src/Config/Validate.antt =====
-- Validate of internal/config/config.go.
use ideas.Base.{◌≡◌, refl, Bool, true, false, ◌||◌, Option, none, some}
use ideas.Base.Int.{ℤ, pos, leb_ℤ, ltb_ℤ}
use ideas.Cleaner.Clean.{is_empty}
use ideas.Config.{Config}

pub data ConfigError : Type 0 where
  invalid_server_port provider_required base_url_required chat_model_required : ConfigError
  embedding_model_required storage_type_required storage_host_required invalid_storage_port :
      ConfigError
  batch_size_not_positive analyses_not_positive document_size_not_positive : ConfigError

-- A port is out of range.
abbrev pub bad_port : ℤ → Bool
bad_port p = leb_ℤ p (pos 0) || ltb_ℤ (pos 65535) p

abbrev or_rest : Bool → ConfigError → Option ConfigError → Option ConfigError
or_rest true e rest = some e
or_rest false e rest = rest

unfoldable pub validate : Config → Option ConfigError
validate c =
    let server = c.server in
    let llm = c.llm in
    let storage = c.storage in
    let analysis = c.analysis in
    let performance = c.performance in
    or_rest (bad_port server.port) invalid_server_port (
      or_rest (is_empty llm.provider) provider_required (
        or_rest (is_empty llm.base_url) base_url_required (
          or_rest (is_empty llm.chat_model) chat_model_required (
            or_rest (is_empty llm.embedding_model) embedding_model_required (
              or_rest (is_empty storage.storage_type) storage_type_required (
                or_rest (is_empty storage.host) storage_host_required (
                  or_rest (bad_port storage.port) invalid_storage_port (
                    or_rest (leb_ℤ analysis.batch_size (pos 0)) batch_size_not_positive (
                      or_rest (leb_ℤ performance.max_concurrent_analyses (pos 0))
                        analyses_not_positive
                        (or_rest (leb_ℤ performance.max_document_size (pos 0))
                          document_size_not_positive none))))))))))

-- What a valid configuration has.
record IsValid (c : Config) : Type 0 where
  pub server_port : (let k = c.server in bad_port k.port) ≡ false
  pub provider : (let k = c.llm in is_empty k.provider) ≡ false
  pub base_url : (let k = c.llm in is_empty k.base_url) ≡ false
  pub chat_model : (let k = c.llm in is_empty k.chat_model) ≡ false
  pub embedding_model : (let k = c.llm in is_empty k.embedding_model) ≡ false
  pub storage_type : (let k = c.storage in is_empty k.storage_type) ≡ false
  pub storage_host : (let k = c.storage in is_empty k.host) ≡ false
  pub storage_port : (let k = c.storage in bad_port k.port) ≡ false
  pub batch_size : (let k = c.analysis in leb_ℤ k.batch_size (pos 0)) ≡ false
  pub analyses : (let k = c.performance in leb_ℤ k.max_concurrent_analyses (pos 0)) ≡ false
  pub document_size : (let k = c.performance in leb_ℤ k.max_document_size (pos 0)) ≡ false

or_rest-none :
    (b : Bool) (e : ConfigError) (r : Option ConfigError)
    → or_rest b e r ≡ none
    → (b ≡ false) × (r ≡ none)
or_rest-none true e r h = absurd (cc h)
or_rest-none false e r h = (refl, h)

-- Validate returns no error only for a configuration that is valid in every respect that it checks.
validate-IsValid : (c : Config) → validate c ≡ none → IsValid c
unfolding validate
validate-IsValid c h =
    let (b1, h1) = or_rest-none _ invalid_server_port _ h in
    let (b2, h2) = or_rest-none _ provider_required _ h1 in
    let (b3, h3) = or_rest-none _ base_url_required _ h2 in
    let (b4, h4) = or_rest-none _ chat_model_required _ h3 in
    let (b5, h5) = or_rest-none _ embedding_model_required _ h4 in
    let (b6, h6) = or_rest-none _ storage_type_required _ h5 in
    let (b7, h7) = or_rest-none _ storage_host_required _ h6 in
    let (b8, h8) = or_rest-none _ invalid_storage_port _ h7 in
    let (b9, h9) = or_rest-none _ batch_size_not_positive _ h8 in
    let (b10, h10) = or_rest-none _ analyses_not_positive _ h9 in
    let (b11, h11) = or_rest-none _ document_size_not_positive _ h10 in
    record {
      server_port = b1;
      provider = b2;
      base_url = b3;
      chat_model = b4;
      embedding_model = b5;
      storage_type = b6;
      storage_host = b7;
      storage_port = b8;
      batch_size = b9;
      analyses = b10;
      document_size = b11;
    }
