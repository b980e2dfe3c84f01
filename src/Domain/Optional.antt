-- ===== src/Domain/Optional.antt =====
-- internal/domain/optional.go: a JSON field that may be absent, null or a value.
use test_api.Prelude.{String, Bool, true, false, if◌then◌else◌, ◌==◌, string_eq}

pub record Optional {ℓ} (T : Type ℓ) : Type ℓ where
  pub value : T
  pub valid : Bool
  pub set : Bool

-- The zero value: the field is absent from the body.
abbrev pub absent {ℓ} : {T : Type ℓ} → T → Optional T
absent zero_value = record { value = zero_value; valid = false; set = false }

-- `json.Unmarshal` and `json.Marshal` of encoding/json, for one type of values. A failed decoding
-- may have changed the value, which comes back beside the error.
pub record Codec {ℓ} (T : Type ℓ) : Type ℓ where
  pub unmarshal : String → T → T × Bool
  pub marshal : T → String

module _ {ℓ} {T : Type ℓ} (codec : Codec T) where
  -- The receiver as the method leaves it, and whether the method returned nil.
  unfoldable pub unmarshal_json : String → Optional T → Optional T × Bool
  unmarshal_json raw o =
      if raw == "null"
      then (record o { set = true }, true)
      else (let (v, decoded) = codec.unmarshal raw o.value in
          if decoded
          then (record o { set = true; value = v; valid = true }, true)
          else (record o { set = true; value = v }, false))

  unfoldable pub marshal_json : Optional T → String
  marshal_json o = if o.valid then codec.marshal o.value else "null"
