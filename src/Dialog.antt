-- ===== src/Dialog.antt =====
-- cwm/text and the dialogs of cwm/rl/envs: messages and tokens.
pub mod Tokenizer
pub mod Truncate
pub mod Env
