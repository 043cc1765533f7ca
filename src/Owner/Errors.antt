-- ===== src/Owner/Errors.antt =====
-- The sentinel errors of pkg/owner/domain (grant.go, types.go) and the unnamed ones that the
-- managers make.
pub data Error : Type 0 where
  grant_not_found grant_expired grant_already_used grant_max_attempts invalid_grant_code : Error
  challenge_not_found challenge_expired max_attempts_exceeded invalid_code : Error
  owner_not_found invalid_owner_record insecure_permissions io_failed parse_failed : Error
  email_empty invalid_email code_empty code_length rand_failed nil_record store_failed : Error
