-- ===== src/Cli.antt =====
-- tools/rf_trans.cc, src/cli/discovery_observer.cc and src/cli/topic_sniffer.cc: the command line tool,
-- with its options, what it prints of endpoints and messages, its commands and its sniffer.
pub mod Json
pub mod Arguments
pub mod Endpoints
pub mod Watch
pub mod Rate
pub mod Print
pub mod Reader
pub mod Printed
pub mod Table
pub mod Decode
pub mod Decoded
pub mod Sniffer
pub mod Sniffed
pub mod Output
pub mod Command
pub mod Exit
mod Examples
mod OutputExamples
