-- ===== src/Metadata/Reading.antt =====
-- base_rpc/src/interceptor.rs: what the server reads is what the client added.
use pigs.Prelude.{
  ℕ, ◌≤◌, Option, none, some, [], ◌∷◌, ◌++◌, ◌==◌, if◌then◌else◌, ◌≡◌, refl, ap, ◌∙◌, arith,
  Bool-cases, inl, inr,
}
use pigs.Metadata.{
  Text, request_id_name, trace_id_name, node_id_name, instance_id_name, protocol_version_name,
  authorization_name, bearer, RpcMetadata, MetadataMap, Called, ok, invalid_metadata, and_then,
  strip_prefix, with_prefix, without_prefix, insert_parsed, insert_value, insert_optional, call,
  text_of, get_value, extract_rpc_metadata,
}

strip_prefix-append : (prefix t : Text) → strip_prefix prefix (prefix ++ t) ≡ some t
unfolding strip_prefix
strip_prefix-append [] t = refl
strip_prefix-append (c ∷ prefix) t = ground (arith, strip_prefix-append prefix t)

without_prefix-with_prefix : (o : Option Text) → without_prefix (with_prefix o) ≡ o
unfolding without_prefix with_prefix
without_prefix-with_prefix none = refl
without_prefix-with_prefix (some t) = strip_prefix-append bearer t

-- What is read after an optional insertion.
abbrev or_else : Option Text → Option Text → Option Text
or_else none old = old
or_else (some t) old = some t

or_else-none : (o : Option Text) → or_else o none ≡ o
or_else-none none = refl
or_else-none (some t) = refl

abbrev overlay : ℕ → Option Text → (ℕ → Option Text) → ℕ → Option Text
overlay name o f k = if name == k then or_else o (f k) else f k

module _ (d : MetadataMap) where
  -- The call ends well, or is refused for a value that is no metadata value.
  abbrev Ends : Called d.Entries → (d.Entries → Type 0) → Type 0
  Ends (ok m) P = P m
  Ends (invalid_metadata name value) P = d.from_str value ≡ none

  insert_parsed-Ends :
      (m : d.Entries) (name : ℕ) (value : Text) (o : Option d.Value)
      → d.from_str value ≡ o
      → Ends
          (insert_parsed d m name value o)
          (λ m1. (k : ℕ) → get_value d m1 k ≡ overlay name (some value) (get_value d m) k)
  unfolding insert_parsed get_value text_of
  insert_parsed-Ends m name value none parsed = parsed
  insert_parsed-Ends m name value (some v) parsed = λ k.
      let made = d.to_str-from_str value v parsed in
      elim (Bool-cases (name == k)) [
        | inl here ↦
            let got : d.get (d.insert m name v) k ≡ some v =
              ground (arith, here, d.get-insert m name k v) in
            rw here (ap (text_of d) got ∙ made)
        | inr away ↦
            let got : d.get (d.insert m name v) k ≡ d.get m k =
              ground (arith, away, d.get-insert m name k v) in
            rw away (ap (text_of d) got)
      ]

  insert_optional-Ends :
      (m : d.Entries) (name : ℕ) (o : Option Text)
      → Ends
          (insert_optional d m name o)
          (λ m1. (k : ℕ) → get_value d m1 k ≡ overlay name o (get_value d m) k)
  unfolding insert_optional insert_value
  insert_optional-Ends m name none = λ k. ground arith
  insert_optional-Ends m name (some value) = insert_parsed-Ends m name value (d.from_str value) refl

  Ends-mono :
      (r : Called d.Entries) (P Q : d.Entries → Type 0)
      → ((m : d.Entries) → P m → Q m)
      → Ends r P
      → Ends r Q
  Ends-mono (ok m) P Q h p = h m p
  Ends-mono (invalid_metadata name value) P Q h p = p

  -- One more insertion.
  and_then-Ends :
      (r : Called d.Entries) (f : ℕ → Option Text) (name : ℕ) (o : Option Text)
      → Ends r (λ m. (k : ℕ) → get_value d m k ≡ f k)
      → Ends
          (and_then r (λ m. insert_optional d m name o))
          (λ m. (k : ℕ) → get_value d m k ≡ overlay name o f k)
  unfolding and_then
  and_then-Ends (invalid_metadata n value) f name o h = h
  and_then-Ends (ok m) f name o h =
      Ends-mono (insert_optional d m name o)
        (λ m1. (k : ℕ) → get_value d m1 k ≡ overlay name o (get_value d m) k)
        (λ m1. (k : ℕ) → get_value d m1 k ≡ overlay name o f k)
        (λ m1 e k. e k ∙ ap (λ x. if name == k then or_else o x else x) (h k))
        (insert_optional-Ends m name o)

  -- The request has no entry yet that the interceptor makes.
  abbrev pub IsFresh : d.Entries → Type 0
  IsFresh m = (k : ℕ) → k ≤ authorization_name → get_value d m k ≡ none

  -- The server reads the client's metadata; or the call is refused, for a text that is no metadata
  -- value.
  abbrev pub Reads : RpcMetadata → Called d.Entries → Type 0
  Reads metadata (ok m) = extract_rpc_metadata d m ≡ metadata
  Reads metadata (invalid_metadata name value) = d.from_str value ≡ none

  call-Ends :
      (metadata : RpcMetadata) (m : d.Entries)
      → Ends (call d metadata m) (λ m1.
        (k : ℕ)
        → get_value d m1 k
          ≡ overlay authorization_name
              (with_prefix metadata.bearer_token)
              (overlay protocol_version_name metadata.protocol_version (
                overlay instance_id_name metadata.instance_id (
                  overlay node_id_name metadata.node_id (
                    overlay trace_id_name metadata.trace_id
                      (overlay request_id_name metadata.request_id (get_value d m))))))
              k)
  unfolding call
  call-Ends metadata m = and_then-Ends _ _ authorization_name (with_prefix metadata.bearer_token) (
      and_then-Ends _ _ protocol_version_name metadata.protocol_version (
        and_then-Ends _ _ instance_id_name metadata.instance_id (
          and_then-Ends _ _ node_id_name metadata.node_id (
            and_then-Ends _ _ trace_id_name metadata.trace_id
              (insert_optional-Ends m request_id_name metadata.request_id)))))

  fresh_value : (o old : Option Text) → old ≡ none → or_else o old ≡ o
  fresh_value o old fresh = ap (or_else o) fresh ∙ or_else-none o

  same_metadata :
      (m : d.Entries) (metadata : RpcMetadata)
      → get_value d m request_id_name ≡ metadata.request_id
      → get_value d m trace_id_name ≡ metadata.trace_id
      → get_value d m node_id_name ≡ metadata.node_id
      → get_value d m instance_id_name ≡ metadata.instance_id
      → get_value d m protocol_version_name ≡ metadata.protocol_version
      → get_value d m authorization_name ≡ with_prefix metadata.bearer_token
      → extract_rpc_metadata d m ≡ metadata
  unfolding extract_rpc_metadata
  same_metadata m metadata a b c e f g =
      let token = ap without_prefix g ∙ without_prefix-with_prefix metadata.bearer_token in
      λ i. record {
        request_id = a i;
        trace_id = b i;
        node_id = c i;
        instance_id = e i;
        protocol_version = f i;
        bearer_token = token i;
      }

  Ends-Reads :
      (r : Called d.Entries) (metadata : RpcMetadata)
      → Ends r (λ m. extract_rpc_metadata d m ≡ metadata)
      → Reads metadata r
  Ends-Reads (ok m) metadata h = h
  Ends-Reads (invalid_metadata name value) metadata h = h

  -- On a request that has none of the six entries, the interceptor either makes a request from which
  -- the server extracts the client's metadata, all six fields with those that are absent; or it
  -- refuses, and the text it names is no metadata value.
  pub call-Reads :
      (metadata : RpcMetadata) (m : d.Entries) → IsFresh m → Reads metadata (call d metadata m)
  call-Reads metadata m fresh = Ends-Reads (call d metadata m) metadata (
      Ends-mono (call d metadata m) _ (λ m1. extract_rpc_metadata d m1 ≡ metadata)
        (λ m1 e.
          same_metadata m1 metadata
            (e request_id_name ∙ fresh_value metadata.request_id _ (fresh 0 (omega arith)))
            (e trace_id_name ∙ fresh_value metadata.trace_id _ (fresh 1 (omega arith)))
            (e node_id_name ∙ fresh_value metadata.node_id _ (fresh 2 (omega arith)))
            (e instance_id_name ∙ fresh_value metadata.instance_id _ (fresh 3 (omega arith)))
            (e protocol_version_name
              ∙ fresh_value metadata.protocol_version _ (fresh 4 (omega arith)))
            (e authorization_name
              ∙ fresh_value (with_prefix metadata.bearer_token) _ (fresh 5 (omega arith))))
        (call-Ends metadata m))
