-- ===== src/BandAdvisor.antt =====
-- band_advisor.c and band_advisor.h: the bands that are worth a visit, as two services report them.
-- curl, sscanf, strtoul and floating point are arguments.
pub mod Json
pub mod Response
pub mod Center
pub mod Rows
pub mod Monitor
pub mod Service
