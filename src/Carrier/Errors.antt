-- ===== src/Carrier/Errors.antt =====
-- The sentinel errors of internal/core/carrier, and io.ErrShortBuffer, which it returns too.
pub data CarrierError : Type 0 where
  header_too_short record_truncated invalid_record_length : CarrierError
  invalid_fragment invalid_data_session_id invalid_range : CarrierError
  short_buffer : CarrierError
  carrier_too_short carrier_version carrier_next_header carrier_payload_size : CarrierError
  carrier_source carrier_destination carrier_address carrier_payload_limit : CarrierError
