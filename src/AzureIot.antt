-- ===== src/AzureIot.antt =====
-- azure_iot.c: the connection to the hub, and the callbacks on its device twin. The SDK is a
-- parameter: what it answers is an argument, what is asked of it a result.
pub mod Client
pub mod Calls
pub mod Safety
pub mod Attempts
pub mod Backoff
pub mod Twin
pub mod Registry
