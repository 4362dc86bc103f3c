-- ===== src/Boot/Restart.antt =====
-- A master that starts on the file that another one saved.
use le_kv.Bytes.{Bytes}
use le_kv.Master.{Master}
