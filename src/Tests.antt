-- ===== src/Tests.antt =====
-- Runs of the model on concrete inputs, and the theorems at inputs where their conditions hold.
mod Samples
mod Sessions
mod Keeping
mod Reconciling
mod Sidecars
mod Cluster
mod Server
mod Serving
mod Systems
mod Starting
mod Restoring
mod Cleaning
mod Listing
mod Removing
mod Registering
mod Configurations
