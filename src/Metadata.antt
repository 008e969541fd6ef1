-- ===== src/Metadata.antt =====
-- base_rpc/src/interceptor.rs: the metadata that a client adds to a request and a server reads. A
-- text is the list of its code points, and the name of an entry a number.
use pigs.Prelude.{ℕ, Option, none, some, List, [], ◌∷◌, ◌++◌, ◌==◌, if◌then◌else◌, ◌≡◌, codes}
pub mod Reading
mod Tests

abbrev pub Text : Type 0
Text = List ℕ

abbrev pub request_id_name : ℕ
request_id_name = 0

abbrev pub trace_id_name : ℕ
trace_id_name = 1

abbrev pub node_id_name : ℕ
node_id_name = 2

abbrev pub instance_id_name : ℕ
instance_id_name = 3

abbrev pub protocol_version_name : ℕ
protocol_version_name = 4

abbrev pub authorization_name : ℕ
authorization_name = 5

abbrev pub bearer : Text
bearer = codes "Bearer "

pub record RpcMetadata : Type 0 where
  pub request_id : Option Text
  pub trace_id : Option Text
  pub node_id : Option Text
  pub instance_id : Option Text
  pub protocol_version : Option Text
  pub bearer_token : Option Text

-- tonic's `MetadataMap` and `MetadataValue`: an insertion replaces the entry of its name, and a
-- value made from a text gives the text back.
pub record MetadataMap : Type 1 where
  pub Entries : Type 0
  pub Value : Type 0
  pub insert : Entries → ℕ → Value → Entries
  pub get : Entries → ℕ → Option Value
  pub from_str : Text → Option Value
  pub to_str : Value → Option Text
  pub get-insert :
      (m : Entries) (name k : ℕ) (v : Value)
      → get (insert m name v) k ≡ (if name == k then some v else get m k)
  pub to_str-from_str : (t : Text) (v : Value) → from_str t ≡ some v → to_str v ≡ some t

-- A request's entries, or the status for invalid metadata.
pub data Called (Entries : Type 0) : Type 0 where
  ok : Entries → Called Entries
  invalid_metadata : (name : ℕ) (value : Text) → Called Entries

unfoldable pub and_then : {A : Type 0} → Called A → (A → Called A) → Called A
and_then (ok a) f = f a
and_then (invalid_metadata name value) f = invalid_metadata name value

unfoldable pub strip_prefix : Text → Text → Option Text
strip_prefix [] t = some t
strip_prefix (c ∷ prefix) [] = none
strip_prefix (c ∷ prefix) (x ∷ t) =
    let rest = strip_prefix prefix t in if c == x then rest else none

unfoldable pub with_prefix : Option Text → Option Text
with_prefix none = none
with_prefix (some token) = some (bearer ++ token)

unfoldable pub without_prefix : Option Text → Option Text
without_prefix none = none
without_prefix (some value) = strip_prefix bearer value

module _ (d : MetadataMap) where
  unfoldable pub insert_parsed : d.Entries → ℕ → Text → Option d.Value → Called d.Entries
  insert_parsed m name value none = invalid_metadata name value
  insert_parsed m name value (some v) = ok (d.insert m name v)

  unfoldable pub insert_value : d.Entries → ℕ → Text → Called d.Entries
  insert_value m name value = insert_parsed m name value (d.from_str value)

  unfoldable pub insert_optional : d.Entries → ℕ → Option Text → Called d.Entries
  insert_optional m name none = ok m
  insert_optional m name (some value) = insert_value m name value

  -- `ClientMetadataInterceptor::call`.
  unfoldable pub call : RpcMetadata → d.Entries → Called d.Entries
  call metadata m =
      and_then
        (and_then
          (and_then
            (and_then
              (and_then (insert_optional m request_id_name metadata.request_id)
                (λ m1. insert_optional m1 trace_id_name metadata.trace_id))
              (λ m2. insert_optional m2 node_id_name metadata.node_id))
            (λ m3. insert_optional m3 instance_id_name metadata.instance_id))
          (λ m4. insert_optional m4 protocol_version_name metadata.protocol_version))
        (λ m5. insert_optional m5 authorization_name (with_prefix metadata.bearer_token))

  unfoldable pub text_of : Option d.Value → Option Text
  text_of none = none
  text_of (some v) = d.to_str v

  unfoldable pub get_value : d.Entries → ℕ → Option Text
  get_value m name = text_of (d.get m name)

  unfoldable pub extract_rpc_metadata : d.Entries → RpcMetadata
  extract_rpc_metadata m = record {
    request_id = get_value m request_id_name;
    trace_id = get_value m trace_id_name;
    node_id = get_value m node_id_name;
    instance_id = get_value m instance_id_name;
    protocol_version = get_value m protocol_version_name;
    bearer_token = without_prefix (get_value m authorization_name);
  }
