-- ===== src/Proto/CastMessage/Parse/RoundTrip.antt =====
-- google_cast_message.cpp: parsing what SerializeWithCachedSizes wrote merges the message that
-- was written.
use libchromecast.Prelude.{ℕ, ◌<◌, ◌≡◌, ap, ◌∙◌, [], ◌++◌, arith, length, append-nil}
use libchromecast.Proto.Parser.{success}
use libchromecast.Proto.Fields.{merge_string, merge_enum}
use libchromecast.Proto.Runtime.{WireFormat, IsWireFormat}
use libchromecast.Proto.CastMessage.{CastMessage, merge_from, has_any}
use libchromecast.Proto.CastMessage.Serialize.{serialize_with_cached_sizes}
use libchromecast.Proto.CastMessage.Parse.{merge_partial_from_coded_stream}
use libchromecast.Proto.CastMessage.Parse.Tails.{IsShort, updates_1}
use libchromecast.Proto.CastMessage.Parse.Fields.{Parses-tail_1}

merge_from-updates :
    (from m : CastMessage) → from.unknown_fields ≡ [] → updates_1 from m ≡ merge_from from m
unfolding merge_from merge_string merge_enum has_any
merge_from-updates from m e =
    let same : m.unknown_fields ++ from.unknown_fields ≡ m.unknown_fields =
      ap (λ u. m.unknown_fields ++ u) e ∙ append-nil m.unknown_fields in
    ground (arith, same)

-- Parsing the bytes that SerializeWithCachedSizes wrote for `from`, into any message, reads them
-- all and does what MergeFrom does, where `from` holds no unknown fields and its strings are
-- within the limit of the wire format.
pub parse-serialize :
    (w : WireFormat)
    → IsWireFormat w
    → (from m : CastMessage) (fuel : ℕ) → from.unknown_fields ≡ []
    → IsShort from
    → length (serialize_with_cached_sizes w from) < fuel
    → merge_partial_from_coded_stream w fuel m (serialize_with_cached_sizes w from)
      ≡ success (merge_from from m) []
unfolding serialize_with_cached_sizes merge_partial_from_coded_stream
parse-serialize w format from m fuel e short enough =
    Parses-tail_1 w format from e short fuel m enough
    ∙ ap (λ x. success x []) (merge_from-updates from m e)
