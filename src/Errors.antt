-- ===== src/Errors.antt =====
-- src/domain/errors.rs: the error codes that the modelled parts raise.

-- `ErrorCode`, with the variants that occur below.
pub data ErrorCode : Type 0 where
  janus403 eav001 quota001 infra001 auth403 : ErrorCode
  mbf_corrupt001 mbf_cas_conflict001 mbf_ledger_unbalanced001 mbf_fiscal_closed001
        mbf_tenant_seal001 :
      ErrorCode
