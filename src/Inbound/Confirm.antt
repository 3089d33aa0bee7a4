-- ===== src/Inbound/Confirm.antt =====
-- What it takes to link a phone.
use system_dashnote.Prelude.Text.{Text}
