-- ===== src/Rules.antt =====
-- The auction's rules: packages/shared/src/constants/auction.ts, the types of
-- packages/shared/src/types, and packages/shared/src/validators/bidEligibility.ts.
-- Amounts are whole lakhs, as the types say; ids are numbers, since they are only compared.
pub mod Types
pub mod Eligibility
pub mod Caps
