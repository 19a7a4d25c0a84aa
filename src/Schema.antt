-- ===== src/Schema.antt =====
-- prisma/schema.prisma: the enumerations that the components share.

pub data TransactionStatus : Type 0 where
  draft pending approved submitted confirmed completed rejected expired cancelled failed :
      TransactionStatus

pub data WalletStatus : Type 0 where
  active frozen paused archived : WalletStatus

pub data AgentStatus : Type 0 where
  active paused suspended archived : AgentStatus

pub data RiskBand : Type 0 where
  low medium high critical : RiskBand

pub data IdempotencyStatus : Type 0 where
  processing completed : IdempotencyStatus
