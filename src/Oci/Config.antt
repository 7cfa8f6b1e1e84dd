-- ===== src/Oci/Config.antt =====
-- pkg/oci/config.go: the JSON form of the configuration of an image.
use mac_os_vz_kubelet.Common.{
  String, ◌≡◌, refl, ap, Option, none, some, List, [], ◌∷◌, ◌++◌, map, is_blank, or_else,
  if◌then◌else◌, GoError, ◌⊎◌, inl, inr, arith, Bool-cases, text_comparable, ◌∙◌,
}
use mac_os_vz_kubelet.Oci.{media_type_config_v1, media_type_aux_image, media_type_disk_image, title}

pub record Config : Type 0 where
  pub media_type : String
  pub os : String
  pub hardware_model_data : String
  pub machine_id_data : String
  pub storage : List String

unfoldable pub new_macos_config : String → String → Config
new_macos_config hardware_model_data machine_id_data = record {
  media_type = media_type_config_v1;
  os = "darwin";
  hardware_model_data = hardware_model_data;
  machine_id_data = machine_id_data;
  storage = media_type_aux_image ∷ media_type_disk_image ∷ [];
}

-- The zero value.
abbrev pub empty_config : Config
empty_config = record {
  media_type = "";
  os = "";
  hardware_model_data = "";
  machine_id_data = "";
  storage = [];
}

pub record StorageItem : Type 0 where
  pub media_type : String
  pub file : String

-- A JSON object by the keys of a configuration; `none` is a key that it does not have.
pub record Document : Type 0 where
  pub storage : Option (List StorageItem)
  pub media_type : Option String
  pub os : Option String
  pub hardware_model_data : Option String
  pub machine_id_data : Option String

abbrev pub storage_item : String → StorageItem
storage_item mt = record { media_type = mt; file = title mt }

-- The option omitempty of a field.
abbrev pub unless_empty : String → Option String
unless_empty s = if is_blank s then none else some s

abbrev pub document : Config → Document
document c = record {
  storage = some (map storage_item c.storage);
  media_type = unless_empty c.media_type;
  os = some c.os;
  hardware_model_data = some c.hardware_model_data;
  machine_id_data = some c.machine_id_data;
}

-- What the fields of a decoded object leave of a configuration: a key that is not there changes nothing.
abbrev pub fill : Document → Config → Config
fill d c = record {
  media_type = or_else d.media_type c.media_type;
  os = or_else d.os c.os;
  hardware_model_data = or_else d.hardware_model_data c.hardware_model_data;
  machine_id_data = or_else d.machine_id_data c.machine_id_data;
  storage = c.storage ++ map (λ (i : StorageItem). i.media_type) (or_else d.storage []);
}

-- `encode` and `decode` are json.Marshal and json.Unmarshal between such an object and its bytes.
module _ {Bytes : Type 0} (encode : Document → Bytes) (decode : Bytes → GoError ⊎ Document) where
  unfoldable pub marshal_json : Config → Bytes
  marshal_json c = encode (document c)

  unfoldable pub unmarshal_json : Bytes → Config → GoError ⊎ Config
  unmarshal_json bytes c = elim (decode bytes) [ inl e ↦ inl e | inr d ↦ inr (fill d c) ]

  media_types-items :
      (mts : List String) → map (λ (i : StorageItem). i.media_type) (map storage_item mts) ≡ mts
  media_types-items [] = refl
  media_types-items (mt ∷ mts) = ap (λ l. mt ∷ l) (media_types-items mts)

  fill-document :
      (c old : Config)
      → fill (document c) old ≡ record c {
        media_type = if is_blank c.media_type then old.media_type else c.media_type;
        storage = old.storage ++ c.storage;
      }
  fill-document c old = elim (Bool-cases (is_blank c.media_type)) [
    | inl h ↦ simp (h, media_types-items c.storage)
    | inr h ↦ simp (h, media_types-items c.storage)
  ]

  decoded :
      ((d : Document) → decode (encode d) ≡ inr d)
      → (c old : Config) → unmarshal_json (marshal_json c) old ≡ inr (fill (document c) old)
  unfolding marshal_json unmarshal_json
  decoded coder c old = rw (coder (document c), unmarshal_json) refl

  blank_or_same : (s : String) → (if is_blank s then "" else s) ≡ s
  blank_or_same s = ground (arith, text_comparable.same_iff s "")

  -- Where the JSON coder reads what it has written, the decoding of an encoded configuration is that
  -- configuration, put over the one that is decoded into: the fields are replaced, the media type
  -- only where the encoded one is not empty, and the storage media types are appended to those
  -- that were there. Into the zero value it gives the encoded configuration back.
  pub unmarshal_json-marshal_json :
      ((d : Document) → decode (encode d) ≡ inr d)
      → (c old : Config)
      → (unmarshal_json (marshal_json c) old
          ≡ inr (record c {
            media_type = if is_blank c.media_type then old.media_type else c.media_type;
            storage = old.storage ++ c.storage;
          }))
        × (unmarshal_json (marshal_json c) empty_config ≡ inr c)
  unmarshal_json-marshal_json coder c old = (
    decoded coder c old ∙ ap inr (fill-document c old),
    decoded coder c empty_config
        ∙ ap inr (
            fill-document c empty_config
            ∙ ap (λ s. record c { media_type = s }) (blank_or_same c.media_type)),
  )
