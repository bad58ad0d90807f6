-- ===== src/Tests.antt =====
-- Runs of the models on small concrete inputs.
mod Strings
mod Arrays
mod Lists
mod Maps
mod Objects
mod Threads
mod Copying
mod Contexts
mod Shared
mod Lifecycle
